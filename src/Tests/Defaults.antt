-- ===== src/Tests/Defaults.antt =====
-- The values of a configuration that says nothing, at work.
use repossess.Prelude.{codes, false, ◌≡◌, refl, text_eq, Text}
use repossess.Config.Defaults.{default_export, default_chats}
use repossess.Chats.Store.{index_key, conv_key}
use repossess.Commands.Export.{json_key}

-- The export and the workload write under different prefixes.
exports_apart :
    (id conv : Text)
    → text_eq (json_key default_export.prefix id) (conv_key (default_chats (codes "chats")) conv)
      ≡ false
unfolding json_key conv_key text_eq
exports_apart id conv = refl

index_of_chats : index_key (default_chats (codes "chats")) ≡ codes "chatgpt/index.json.age"
unfolding index_key
index_of_chats = refl
