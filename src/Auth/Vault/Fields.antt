-- ===== src/Auth/Vault/Fields.antt =====
-- vault/client.go: the fields of a secret as a key-value storage.
use tgcontrib.Base.{
  ◌≡◌, ◌⊎◌, refl, Bool-cases, inl, inr, ℕ, Option, none, some, if◌then◌else◌, Bytes,
}
use tgcontrib.Base.Text.{equal}
use tgcontrib.Auth.Kv.{KvError, kv_panics, kv_failed, got}
use tgcontrib.Auth.Kv.Saved.{IsKv}
use tgcontrib.Auth.Vault.{
  Secret, Fetched, fetched, absent, without_data, no_secret, fetch_failed, sent, with_field,
  vault_add, field_reply, vault_get, vault_client,
}

-- To split on what was fetched and keep the equation.
data IsFetched (o : Fetched) : Type 0 where
  is_fetched : (d : Secret) → o ≡ fetched d → IsFetched o
  is_absent : o ≡ absent → IsFetched o
  is_without_data : o ≡ without_data → IsFetched o
  is_no_secret : o ≡ no_secret → IsFetched o
  is_failed : (e : ℕ) → o ≡ fetch_failed e → IsFetched o

Fetched-cases : (o : Fetched) → IsFetched o
Fetched-cases (fetched d) = is_fetched d refl
Fetched-cases absent = is_absent refl
Fetched-cases without_data = is_without_data refl
Fetched-cases no_secret = is_no_secret refl
Fetched-cases (fetch_failed e) = is_failed e refl

some-ne-none : {e : KvError} → some e ≡ none → ⊥
some-ne-none h = cc

-- A secret that is sent without an error is what is fetched from then on.
abbrev pub Keeps : {S : Type 0} → (S → Fetched) → (S → Secret → S × Option ℕ) → Type 0
Keeps {S} fetch send = (s : S) (d : Secret) → (send s d).1 ≡ none → fetch (send s d).0 ≡ fetched d

module _ {S : Type 0} (fetch : S → Fetched) (send : S → Secret → S × Option ℕ) where
  sent_ok :
      (r : S × Option ℕ)
      → (sent fetch send r).1 ≡ none
      → (r.1 ≡ none) × ((sent fetch send r).0 ≡ r.0)
  unfolding sent
  sent_ok (s, none) h = (refl, refl)
  sent_ok (s, some e) h = absurd (some-ne-none h)

  field_reply-with_field :
      (k v j : Bytes) (d : Secret)
      → field_reply fetch send (with_field fetch send k v d j)
        ≡ (if equal k j then got v else field_reply fetch send (d j))
  unfolding field_reply with_field
  field_reply-with_field k v j d = elim (Bool-cases (equal k j)) [
    | inl e ↦ rw e refl
    | inr e ↦ rw e refl
  ]

  sent-get :
      (k v j : Bytes) (d : Secret) (s : S)
      → Keeps fetch send
      → (sent fetch send (send s (with_field fetch send k v d))).1 ≡ none
      → vault_get fetch send j (sent fetch send (send s (with_field fetch send k v d))).0
        ≡ (if equal k j then got v else field_reply fetch send (d j))
  unfolding vault_get
  sent-get k v j d s keeps h =
      let (ok, same) = sent_ok (send s (with_field fetch send k v d)) h in
      rw same
        (rw (keeps s (with_field fetch send k v d) ok, vault_get) (field_reply-with_field k v j d))

  vault_add-fetched :
      (k v : Bytes) (s : S) (d : Secret)
      → fetch s ≡ fetched d
      → vault_add fetch send k v s ≡ sent fetch send (send s (with_field fetch send k v d))
  unfolding vault_add
  vault_add-fetched k v s d f = rw (f, vault_add) refl

  vault_get-fetched :
      (j : Bytes) (s : S) (d : Secret)
      → fetch s ≡ fetched d
      → vault_get fetch send j s ≡ field_reply fetch send (d j)
  unfolding vault_get field_reply
  vault_get-fetched j s d f = rw (f, vault_get) refl

  vault_add-absent :
      (k v : Bytes) (s : S)
      → fetch s ≡ absent
      → vault_add fetch send k v s
        ≡ sent fetch send (send s (with_field fetch send k v (λ i. none)))
  unfolding vault_add
  vault_add-absent k v s f = rw (f, vault_add) refl

  vault_get-absent :
      (j : Bytes) (s : S)
      → fetch s ≡ absent
      → vault_get fetch send j s ≡ field_reply fetch send none
  unfolding vault_get field_reply
  vault_get-absent j s f = rw (f, vault_get) refl

  vault_add-failed :
      (k v : Bytes) (s : S) (e : ℕ)
      → fetch s ≡ fetch_failed e
      → vault_add fetch send k v s ≡ (s, some (kv_failed e))
  unfolding vault_add
  vault_add-failed k v s e f = rw (f, vault_add) refl

  vault_add_panics :
      (k v : Bytes) (s : S)
      → (fetch s ≡ without_data) ⊎ (fetch s ≡ no_secret)
      → vault_add fetch send k v s ≡ (s, some kv_panics)
  unfolding vault_add
  vault_add_panics k v s (inl f) = rw (f, vault_add) refl
  vault_add_panics k v s (inr f) = rw (f, vault_add) refl

  -- Where the server keeps the secret that it is sent, Set on a secret of Vault without an
  -- error makes its value readable and leaves the answer for every other key, also where there
  -- was no secret before.
  pub vault_client-IsKv : Keeps fetch send → IsKv (vault_client fetch send)
  vault_client-IsKv keeps k v j s h = elim (Fetched-cases (fetch s)) [
    | is_failed e f ↦ absurd (some-ne-none (rw (vault_add-failed k v s e f) at h))
    | is_without_data f ↦ absurd (some-ne-none (rw (vault_add_panics k v s (inl f)) at h))
    | is_no_secret f ↦ absurd (some-ne-none (rw (vault_add_panics k v s (inr f)) at h))
    | is_absent f ↦
        rw (vault_add-absent k v s f, vault_get-absent j s f)
          (sent-get k v j (λ i. none) s keeps (rw (vault_add-absent k v s f) at h))
    | is_fetched d f ↦
        rw (vault_add-fetched k v s d f, vault_get-fetched j s d f)
          (sent-get k v j d s keeps (rw (vault_add-fetched k v s d f) at h))
  ]
