-- ===== src/Auth/Kv/Saved.antt =====
-- auth/kv: reads behind saved credentials and sessions.
use tgcontrib.Base.{
  ◌≡◌, ◌≢◌, refl, sym, ap, ◌∙◌, Bool-cases, inl, inr, true, false, none, if◌then◌else◌, Bytes,
}
use tgcontrib.Base.Text.{equal, equal_iff}
use tgcontrib.Auth.Kv.{
  got, Kv, Credentials, provided, password_reply, loaded, Session, session_reply, phone, password,
  save_phone, save_password, load_session, store_session,
}

-- A value that is set without an error is read under its key, and the other keys keep theirs.
abbrev pub IsKv : {S : Type 0} → Kv S → Type 0
IsKv {S} kv =
    (k v j : Bytes) (s : S)
    → (kv.set k v s).1 ≡ none
    → kv.get j (kv.set k v s).0 ≡ (if equal k j then got v else kv.get j s)

equal_self : (s : Bytes) → equal s s ≡ true
equal_self s = (equal_iff s s).1 refl

equal-ne : (s t : Bytes) → s ≢ t → equal s t ≡ false
equal-ne s t n = elim (Bool-cases (equal s t)) [
  | inl e ↦ absurd (n ((equal_iff s t).0 e))
  | inr e ↦ e
]

module _ {S : Type 0} where
  set_reads :
      (kv : Kv S) (k v : Bytes) (s : S)
      → IsKv kv
      → (kv.set k v s).1 ≡ none
      → kv.get k (kv.set k v s).0 ≡ got v
  set_reads kv k v s laws h = laws k v k s h ∙ rw (equal_self k) refl

  -- Over a key-value storage, a session that is stored without an error is loaded.
  pub load_session-store_session :
      (x : Session S) (v : Bytes) (s : S)
      → IsKv x.storage
      → (store_session x v s).1 ≡ none
      → load_session x (store_session x v s).0 ≡ loaded v
  unfolding load_session store_session session_reply
  load_session-store_session x v s kv h = ap session_reply (set_reads x.storage x.key v s kv h)

  -- Over a key-value storage, a phone and a password that are saved without an error, in this
  -- order and under two keys, are both read.
  pub saved_credentials :
      (c : Credentials S) (number secret : Bytes) (s : S)
      → IsKv c.storage
      → c.phone_key ≢ c.password_key
      → (save_phone c number s).1 ≡ none
      → (save_password c secret (save_phone c number s).0).1 ≡ none
      → (phone c (save_password c secret (save_phone c number s).0).0 ≡ got number)
        × (password c (save_password c secret (save_phone c number s).0).0 ≡ provided secret)
  unfolding phone password save_phone save_password password_reply
  saved_credentials c number secret s kv n h g =
      let s1 = (c.storage.set c.phone_key number s).0 in
      (
        kv c.password_key secret c.phone_key s1 g
            ∙ rw (equal-ne c.password_key c.phone_key (λ e. n (sym e)))
                (set_reads c.storage c.phone_key number s kv h),
        ap password_reply (set_reads c.storage c.password_key secret s1 kv g),
      )
