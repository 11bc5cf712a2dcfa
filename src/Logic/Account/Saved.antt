-- ===== src/Logic/Account/Saved.antt =====
-- The keys that Login's transaction and the deletions of logic/rpc.go write.
use zhibo.Prelude.{
  ℤ, Bytes, str_eq, str_eq_sound, str_eq_self, [], ◌∷◌, ◌≡◌, ◌≢◌, refl, sym, ap, ◌∙◌, Bool-cases,
  inl, inr,
}
use zhibo.Prelude.Decimal.{atoi-itoa}
use zhibo.Proto.{success_reply_code}
use zhibo.Logic.Redis.{
  set, expire, hmset, field, Data, Value, absent, a_hash, apply, apply_all, write, put_fields,
  put_field, to_hash, hash_of,
}
use zhibo.Logic.World.{User}
use zhibo.Logic.Account.{session_time, user_data, auth_reply}

pub write_self : (k : Bytes) (v : Value) (d : Data) → write k v d k ≡ v
unfolding write
write_self k v d = rw (str_eq_self k)

pub write_ne : (k j : Bytes) (v : Value) (d : Data) → k ≢ j → write k v d j ≡ d j
unfolding write
write_ne k j v d ne = elim (Bool-cases (str_eq j k)) [
  | inl same ↦ absurd (ne (sym (str_eq_sound j k same)))
  | inr other ↦ rw other
]

pub write_absent : (k j : Bytes) (d : Data) → d j ≡ absent → write k absent d j ≡ absent
unfolding write
write_absent k j d free = elim (Bool-cases (str_eq j k)) [
  | inl same ↦ rw same
  | inr other ↦ rw other free
]

-- The session of a fresh key, after the transaction.
pub put_user_data :
    (uid : ℤ) (name : Bytes) → put_fields (user_data uid name) [] ≡ user_data uid name
unfolding put_fields put_field user_data
put_user_data uid name = refl

pub saved-session :
    (session sess_map : Bytes) (u : User) (token : Bytes) (d : Data)
    → d session ≡ absent
    → sess_map ≢ session
    → apply_all
        (hmset session (user_data u.id u.user_name)
          ∷ expire session session_time
          ∷ set sess_map token session_time
          ∷ [])
        d
        session
      ≡ a_hash (user_data u.id u.user_name)
unfolding apply_all apply user_data
saved-session session sess_map u token d free ne =
    write_ne sess_map session _
      (write session (to_hash (put_fields (user_data u.id u.user_name)) (d session)) d) ne
    ∙ write_self session _ d
    ∙ ap (to_hash (put_fields (user_data u.id u.user_name))) free
    ∙ ap hash_of (put_user_data u.id u.user_name)

pub auth_reply-user_data :
    (uid : ℤ) (name : Bytes)
    → auth_reply (user_data uid name)
      ≡ record { code = success_reply_code; user_id = uid; user_name = name }
unfolding auth_reply user_data field
auth_reply-user_data uid name = rw (atoi-itoa uid)
