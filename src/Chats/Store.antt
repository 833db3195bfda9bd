-- ===== src/Chats/Store.antt =====
-- The stored side of src/workload/chatgpt_chats.rs: the encrypted index, and one object for each
-- conversation.
use repossess.Prelude.{Text, Option, none, some, List, [], ◌∷◌, ◌++◌, codes}
use repossess.Effect.{M, in_context, lift, total, pure, with_context, ◌>>=◌, ◌>>◌}
use repossess.Data.{ChatsIndex, ChatsIndexEntry}
use repossess.Config.{ChatgptChatsCfg}
use repossess.Host.{Host}
use repossess.Web.{Web}
use repossess.Snapshot.{sha256_hex}
use repossess.Stores.{SnapshotStore, fanout}

-- format!("{}index.json.age", prefix) and format!("{}conv/{id}.json.zst.age", prefix)
unfoldable pub index_key : ChatgptChatsCfg → Text
index_key cfg = cfg.prefix ++ codes "index.json.age"

unfoldable pub conv_key : ChatgptChatsCfg → Text → Text
conv_key cfg id = cfg.prefix ++ (codes "conv/" ++ (id ++ codes ".json.zst.age"))

-- `entries.insert(id, entry)`; the older binding of the key, if any, is hidden.
abbrev pub insert_entry : {F : Type 0} → Text → ChatsIndexEntry F → ChatsIndex F → ChatsIndex F
insert_entry id e idx = record idx { entries = (id, e) ∷ idx.entries }

module _ (h : Host) where
  -- `WorkloadCtx` without the HTTP client.
  pub record Ctx : Type 0 where
    pub primary : SnapshotStore h
    pub mirrors : List (SnapshotStore h)
    pub recipient : h.Recipient
    pub identity : h.Identity

  unfoldable pub empty_index : M h.World (ChatsIndex h.F64)
  empty_index = do
    now ← total h.now
    pure (record { schema_version = 1; updated_at = now; entries = [] })

  unfoldable pub encode_index : ChatsIndex h.F64 → h.Recipient → M h.World h.Bytes
  encode_index idx recipient = do
    json ← lift (in_context (codes "serialize index") (h.index_json.to_vec idx))
    with_context (codes "encrypt index") (h.age_encrypt recipient json)

  unfoldable pub decode_index : h.Bytes → h.Identity → M h.World (ChatsIndex h.F64)
  decode_index ciphertext identity = do
    plaintext ← lift (in_context (codes "decrypt index") (h.age_decrypt identity ciphertext))
    lift (in_context (codes "parse index JSON") (h.index_json.from_slice plaintext))

  module _ (cfg : ChatgptChatsCfg) where
    pub load_found :
        SnapshotStore h → h.Identity → Option Text → M h.World (ChatsIndex h.F64 × Option Text)
    load_found primary identity none = do idx ← empty_index; pure (idx, none)
    load_found primary identity (some _) = do
      (bytes, etag) ← with_context (codes "get " ++ index_key cfg) (primary.get (index_key cfg))
      idx ← decode_index bytes identity
      pure (idx, some etag)

    unfoldable pub load_index :
        SnapshotStore h → h.Identity → M h.World (ChatsIndex h.F64 × Option Text)
    unfolding load_found
    load_index primary identity = do
      found ← primary.head (index_key cfg)
      load_found primary identity found

    unfoldable pub save_index : Ctx → ChatsIndex h.F64 → Option Text → M h.World (Unit {0})
    save_index ctx idx prev_etag = do
      now ← total h.now
      bytes ← encode_index (record idx { updated_at = now }) ctx.recipient
      with_context (codes "CAS update of " ++ index_key cfg)
          (ctx.primary.put_if_unmodified (index_key cfg) bytes prev_etag)
      total (λ w. (tt, fanout h ctx.mirrors (index_key cfg) bytes w))

    module _ (web : Web h) where
      unfoldable pub encode_conversation : web.Value → h.Recipient → M h.World h.Bytes
      encode_conversation value recipient = do
        json ← lift (in_context (codes "serialize conversation") (web.value_to_vec value))
        compressed ←
            lift
              (in_context (codes "zstd compress conversation") (h.zstd_encode cfg.zstd_level json))
        with_context (codes "encrypt conversation") (h.age_encrypt recipient compressed)

      unfoldable pub decode_conversation : h.Bytes → h.Identity → M h.World web.Value
      decode_conversation ciphertext identity = do
        compressed ←
            lift (in_context (codes "decrypt conversation") (h.age_decrypt identity ciphertext))
        json ← lift (in_context (codes "zstd decompress conversation") (h.zstd_decode compressed))
        lift (in_context (codes "parse conversation JSON") (web.value_from_slice json))

      unfoldable pub store_conversation :
          Ctx → Text → Option Text → Option h.F64 → web.Value → M h.World (ChatsIndexEntry h.F64)
      store_conversation ctx id title update_time body = do
        ciphertext ← encode_conversation body ctx.recipient
        let key = conv_key cfg id
        with_context (codes "put " ++ key) (ctx.primary.put key ciphertext)
        total (λ w. (tt, fanout h ctx.mirrors key ciphertext w))
        stored_at ← total h.now
        pure (record {
          update_time = update_time;
          title = title;
          object_key = key;
          sha256 = sha256_hex h ciphertext;
          bytes = h.len ciphertext;
          stored_at = stored_at;
        })
