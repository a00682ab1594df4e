-- ===== src/Provider/Credentials/Audit.antt =====
-- What the observer of fprovider/src/credentials.rs was told determines how often a credential was
-- used, over any sequence of calls.
use fiddlesticks.Base.{
  ℕ, Bool, true, false, Option, none, some, List, [], ◌∷◌, ◌≡◌, refl, ap, sym, ◌∙◌, ◌==◌,
  if◌then◌else◌, get-insert, get-remove, Option-cases, Bool-cases, inl, inr, ==_refl, subst,
}
use fiddlesticks.Base.Map
use fiddlesticks.Base.Map.{HashMap, is_some}
use fiddlesticks.Provider.Model.{ProviderId}
use fiddlesticks.Provider.Registry.{provider_id_eq, tag_iff}
use fiddlesticks.Provider.Credentials.{
  CredentialKind, CredentialAccessAction, set, rotated, access_granted, access_denied, cleared,
  CredentialAccessEvent, saturating_next, mark_used, is_expired, kind_of, ProviderCredential,
  CredentialEntry, Vault, SecureCredentialManager, remove_if_expired, new_metadata, with_rotation,
}
use fiddlesticks.Provider.Credentials.Manager.{
  insert_and_emit, look, access, revoke, insert_credential,
}
use fiddlesticks.Provider.Credentials.Access.{
  told, event, unexpired, visible, output, left, emit-credentials, emit-env, remove_if_expired_lem,
  access-Accessed,
}

-- How often a provider's credential was used since it was last set, as far as a `u64` counts.
abbrev counted : CredentialAccessAction → ℕ → ℕ
counted set n = 0
counted rotated n = 0
counted access_granted n = saturating_next n
counted access_denied n = n
counted cleared n = n

pub uses : ProviderId → List CredentialAccessEvent → ℕ
uses p [] = 0
uses p (e ∷ log) = if e.provider == p then counted e.action (uses p log) else uses p log

abbrev set_kind :
    CredentialAccessAction → Option CredentialKind → Option CredentialKind → Option CredentialKind
set_kind set kind before = kind
set_kind rotated kind before = kind
set_kind access_granted kind before = before
set_kind access_denied kind before = before
set_kind cleared kind before = before

-- The kind of the credential that was last set, the latest event first.
pub last_kind : ProviderId → List CredentialAccessEvent → Option CredentialKind
last_kind p [] = none
last_kind p (e ∷ log) =
    if e.provider == p then set_kind e.action e.kind (last_kind p log) else last_kind p log

-- An entry is as the log tells.
abbrev pub Tells : List CredentialAccessEvent → ProviderId → Option CredentialEntry → Type 0
Tells log p none = Unit
Tells log p (some e) =
    (e.metadata.access_count ≡ uses p log) × (last_kind p log ≡ some (kind_of e.credential))

-- An observer that keeps what it is told, the latest first.
pub record Logging {W : Type 0} (manager : SecureCredentialManager W) : Type 0 where
  pub log : W → List CredentialAccessEvent
  pub observe : CredentialAccessEvent → W → W
  pub observer_is : manager.observer ≡ some observe
  pub log-observe : (e : CredentialAccessEvent) (w : W) → log (observe e w) ≡ e ∷ log w

Tells-other :
    (log : List CredentialAccessEvent) (e : CredentialAccessEvent) (p : ProviderId)
    (o : Option CredentialEntry)
    → (e.provider == p) ≡ false
    → Tells log p o
    → Tells (e ∷ log) p o
unfolding uses last_kind
Tells-other log e p none other h = tt
Tells-other log e p (some c) other h = rw other h

Tells-subst :
    (p : ProviderId) {l l' : List CredentialAccessEvent} {o o' : Option CredentialEntry}
    → l ≡ l'
    → o ≡ o'
    → Tells l p o
    → Tells l' p o'
Tells-subst p e f h = rw (← e, ← f) h

module _ {W : Type 0} (manager : SecureCredentialManager W) (logging : Logging manager) where
  open logging use {log, observe}

  -- Every entry is as the log tells.
  abbrev pub Audited : Vault W → Type 0
  Audited v = (p : ProviderId) → Tells (log v.env) p (Map.get v.credentials p)

  log-told : (e : CredentialAccessEvent) (w : W) → log (told manager e w) ≡ e ∷ log w
  log-told e w = rw logging.observer_is (logging.log-observe e w)

  unexpired-Tells :
      (l : List CredentialAccessEvent) (p : ProviderId) (now : ℕ) (o : Option CredentialEntry)
      → Tells l p o
      → Tells l p (unexpired manager now o)
  unexpired-Tells l p now none h = tt
  unexpired-Tells l p now (some e) h = elim (Bool-cases (is_expired now e.metadata)) [
    | inl old ↦ rw old tt
    | inr fresh ↦ rw fresh h
  ]

  left-Tells :
      {R : Type 0} (kind : CredentialKind) (read : ProviderCredential → Option R) (p : ProviderId)
      (now : ℕ) (l : List CredentialAccessEvent) (o : Option CredentialEntry)
      → Tells l p o
      → Tells (event manager kind p (output manager read o) ∷ l) p (left manager read now o)
  unfolding uses last_kind mark_used
  left-Tells kind read p now l none h = tt
  left-Tells kind read p now l (some e) h = elim (Option-cases (read e.credential)) [
    | inl other ↦ rw (other, ==_refl p) h
    | inr (r, mine) ↦ rw (mine, ==_refl p) (ap saturating_next h.0, h.1)
  ]

  -- An event about one provider, whose entry becomes as it tells, beside entries that stay.
  event-Audited :
      (v v' : Vault W) (e : CredentialAccessEvent) (o : Option CredentialEntry)
      → Audited v
      → v'.env ≡ told manager e v.env
      → ((q : ProviderId)
          → Map.get v'.credentials q ≡ (if e.provider == q then o else Map.get v.credentials q))
      → Tells (e ∷ log v.env) e.provider o
      → Audited v'
  event-Audited v v' e o h env entries new q =
      Tells-subst q (sym (ap log env ∙ log-told e v.env)) (sym (entries q))
        (elim (Bool-cases (e.provider == q)) [
          | inl same ↦
              rw same (subst (λ k. Tells (e ∷ log v.env) k o) ((tag_iff e.provider q).0 same) new)
          | inr other ↦ rw other (Tells-other (log v.env) e q (Map.get v.credentials q) other (h q))
        ])

  pub access-Audited :
      {R : Type 0} (kind : CredentialKind) (read : ProviderCredential → Option R) (p : ProviderId)
      (v : Vault W)
      → Audited v
      → Audited (access manager kind read p v).1
  access-Audited kind read p v h =
      let (given, entries, env) = access-Accessed manager kind read p v in
      let seen = visible manager v p in
      let now = manager.now v.env in
      event-Audited v _ (event manager kind p (output manager read seen))
        (left manager read now seen) h env entries
        (left-Tells kind read p now (log v.env) seen
          (unexpired-Tells (log v.env) p now (Map.get v.credentials p) (h p)))

  set-Tells :
      (l : List CredentialAccessEvent) (p : ProviderId) (c : ProviderCredential) (now : ℕ)
      (expires_at : Option ℕ) (there : Bool)
      → let e : CredentialAccessEvent = record {
        provider = p;
        kind = some (kind_of c);
        action = if there then rotated else set;
      } in
        let metadata =
          if there then with_rotation now expires_at else new_metadata now expires_at in
        Tells (e ∷ l) p (some (record { credential = c; metadata = metadata }))
  unfolding uses last_kind with_rotation new_metadata
  set-Tells l p c now expires_at true = rw (==_refl p) (refl, refl)
  set-Tells l p c now expires_at false = rw (==_refl p) (refl, refl)

  pub insert-Audited :
      (p : ProviderId) (c : ProviderCredential) (expires_at : Option ℕ) (v : Vault W)
      → Audited v
      → Audited (insert_and_emit manager p c expires_at v)
  unfolding insert_and_emit insert_credential
  insert-Audited p c expires_at v h =
      let there = Map.contains_key v.credentials p in
      let now = manager.now v.env in
      let metadata = if there then with_rotation now expires_at else new_metadata now expires_at in
      let e : CredentialAccessEvent = record {
        provider = p;
        kind = some (kind_of c);
        action = if there then rotated else set;
      } in
      event-Audited v _ e (some (record { credential = c; metadata = metadata })) h
        (emit-env manager e _)
        (λ q. ap (λ m. Map.get m q) (emit-credentials manager e _) ∙ get-insert v.credentials p q _)
        (set-Tells (log v.env) p c now expires_at there)

  removed-Tells :
      (p q : ProviderId) (v : Vault W)
      → Audited v
      → Tells (log v.env) q (Map.get (remove_if_expired v.credentials p (manager.now v.env)).1 q)
  removed-Tells p q v h =
      let now = manager.now v.env in
      Tells-subst q refl (sym (remove_if_expired_lem manager v.credentials p q now).0)
        (elim (Bool-cases (p == q)) [
          | inl same ↦ rw same (
              subst (λ k. Tells (log v.env) k (unexpired manager now (Map.get v.credentials p)))
                ((tag_iff p q).0 same)
                (unexpired-Tells (log v.env) p now (Map.get v.credentials p) (h p)))
          | inr other ↦ rw other (h q)
        ])

  pub look-Audited :
      {A : Type 0} (read : Option CredentialEntry → A) (a : A) (p : ProviderId) (v : Vault W)
      → Audited v
      → Audited (look manager read a p v).1
  unfolding look
  look-Audited read a p v h q =
      let kept = removed-Tells p q v h in
      elim (Bool-cases (remove_if_expired v.credentials p (manager.now v.env)).0) [
        | inl expired ↦ rw expired kept
        | inr fresh ↦ rw fresh kept
      ]

  pub revoke-Audited : (p : ProviderId) (v : Vault W) → Audited v → Audited (revoke manager p v).1
  unfolding revoke
  revoke-Audited p v h = elim (Option-cases (Map.get v.credentials p)) [
    | inl gone ↦
        rw (gone, revoke)
          λ q.
            Tells-subst q refl (sym (get-remove v.credentials p q))
              (elim (Bool-cases (p == q)) [ inl same ↦ rw same tt | inr other ↦ rw other (h q) ])
    | inr (c, there) ↦
        rw (there, revoke)
          (let e : CredentialAccessEvent = record {
            provider = p;
            kind = some (kind_of c.credential);
            action = cleared;
          } in
            event-Audited v _ e none h (emit-env manager e _)
              (λ q.
                ap (λ m. Map.get m q) (emit-credentials manager e _) ∙ get-remove v.credentials p q)
              tt)
  ]
