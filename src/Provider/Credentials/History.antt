-- ===== src/Provider/Credentials/History.antt =====
-- Any sequence of calls of the credential manager of fprovider/src/credentials.rs.
use fiddlesticks.Base.{
  ℕ, String, Option, none, some, List, [], ◌∷◌, ◌≡◌, Bool-cases, inl, inr, get-empty, is_empty_text,
  eqb,
}
use fiddlesticks.Base.Map
use fiddlesticks.Provider.Model.{ProviderId}
use fiddlesticks.Provider.Registry.{provider_id_eq}
use fiddlesticks.Provider.Credentials.{
  Vault, SecureCredentialManager, CredentialEntry, BrowserLoginSession, checked_add,
}
use fiddlesticks.Provider.Credentials.Manager.{
  set_api_key, set_api_key_with_expiry, set_api_key_with_ttl, set_until, rotate_api_key,
  set_browser_session, has_credentials, credential_kind, credential_metadata, with_api_key,
  api_key_of, with_browser_session, browser_session_of, revoke, clear,
}
use fiddlesticks.Provider.Credentials.Audit.{
  Logging, Audited, access-Audited, insert-Audited, look-Audited, revoke-Audited,
}

module _ {W : Type 0} (manager : SecureCredentialManager W) (logging : Logging manager) where
  open logging use {log}

  -- A call of the manager, or something else that happens and that the log does not tell of, such as
  -- the passing of time. What a reader makes of a secret is a text.
  pub data Operation : Type 0 where
    set_key : ProviderId → String → Operation
    set_key_with_ttl : ProviderId → String → (ttl : ℕ) → Operation
    rotate_key : ProviderId → String → (ttl : Option ℕ) → Operation
    set_session : ProviderId → String → (expires_at : Option ℕ) → Operation
    has : ProviderId → Operation
    kind : ProviderId → Operation
    metadata : ProviderId → Operation
    read_key : ProviderId → (String → String) → Operation
    copy_key : ProviderId → Operation
    read_session : ProviderId → (BrowserLoginSession → String) → Operation
    copy_session : ProviderId → Operation
    revoke_one : ProviderId → Operation
    clear_one : ProviderId → Operation
    elsewhere : (f : W → W) → ((w : W) → log (f w) ≡ log w) → Operation

  unfoldable pub after : Operation → Vault W → Vault W
  after (set_key p s) v = (set_api_key manager p s v).1
  after (set_key_with_ttl p s ttl) v = (set_api_key_with_ttl manager p s ttl v).1
  after (rotate_key p s ttl) v = (rotate_api_key manager p s ttl v).1
  after (set_session p s expires_at) v = (set_browser_session manager p s expires_at v).1
  after (has p) v = (has_credentials manager p v).1
  after (kind p) v = (credential_kind manager p v).1
  after (metadata p) v = (credential_metadata manager p v).1
  after (read_key p f) v = (with_api_key manager p f v).1
  after (copy_key p) v = (api_key_of manager p v).1
  after (read_session p f) v = (with_browser_session manager p f v).1
  after (copy_session p) v = (browser_session_of manager p v).1
  after (revoke_one p) v = (revoke manager p v).1
  after (clear_one p) v = (clear manager p v).1
  after (elsewhere f same) v = record v { env = f v.env }

  unfoldable pub after_all : List Operation → Vault W → Vault W
  after_all [] v = v
  after_all (o ∷ os) v = after_all os (after o v)

  set-Audited :
      (p : ProviderId) (s : String) (expires_at : Option ℕ) (v : Vault W)
      → Audited manager logging v
      → Audited manager logging (set_api_key_with_expiry manager p s expires_at v).1
  unfolding set_api_key_with_expiry
  set-Audited p s expires_at v h = elim (Bool-cases (is_empty_text s)) [
    | inl empty ↦ rw empty h
    | inr given ↦ rw given (insert-Audited manager logging p _ expires_at v h)
  ]

  until-Audited :
      (p : ProviderId) (s : String) (o : Option ℕ) (v : Vault W)
      → Audited manager logging v
      → Audited manager logging (set_until manager p s o v).1
  unfolding set_until
  until-Audited p s none v h = h
  until-Audited p s (some t) v h = set-Audited p s (some t) v h

  ttl-Audited :
      (p : ProviderId) (s : String) (ttl : ℕ) (v : Vault W)
      → Audited manager logging v
      → Audited manager logging (set_api_key_with_ttl manager p s ttl v).1
  unfolding set_api_key_with_ttl
  ttl-Audited p s ttl v h = elim (Bool-cases (eqb ttl 0)) [
    | inl zero_ttl ↦ rw zero_ttl h
    | inr long ↦ rw long (until-Audited p s (checked_add (manager.now v.env) ttl) v h)
  ]

  rotate-Audited :
      (p : ProviderId) (s : String) (ttl : Option ℕ) (v : Vault W)
      → Audited manager logging v
      → Audited manager logging (rotate_api_key manager p s ttl v).1
  unfolding rotate_api_key set_api_key
  rotate-Audited p s none v h = set-Audited p s none v h
  rotate-Audited p s (some ttl) v h = ttl-Audited p s ttl v h

  session-Audited :
      (p : ProviderId) (s : String) (expires_at : Option ℕ) (v : Vault W)
      → Audited manager logging v
      → Audited manager logging (set_browser_session manager p s expires_at v).1
  unfolding set_browser_session
  session-Audited p s expires_at v h = elim (Bool-cases (is_empty_text s)) [
    | inl empty ↦ rw empty h
    | inr given ↦ rw given (insert-Audited manager logging p _ expires_at v h)
  ]

  after-Audited :
      (o : Operation) (v : Vault W)
      → Audited manager logging v
      → Audited manager logging (after o v)
  unfolding after set_api_key has_credentials credential_kind credential_metadata with_api_key
      api_key_of with_browser_session browser_session_of clear
  after-Audited (set_key p s) v h = set-Audited p s none v h
  after-Audited (set_key_with_ttl p s ttl) v h = ttl-Audited p s ttl v h
  after-Audited (rotate_key p s ttl) v h = rotate-Audited p s ttl v h
  after-Audited (set_session p s expires_at) v h = session-Audited p s expires_at v h
  after-Audited (has p) v h = look-Audited manager logging _ _ p v h
  after-Audited (kind p) v h = look-Audited manager logging _ _ p v h
  after-Audited (metadata p) v h = look-Audited manager logging _ _ p v h
  after-Audited (read_key p f) v h = access-Audited manager logging _ _ p v h
  after-Audited (copy_key p) v h = access-Audited manager logging _ _ p v h
  after-Audited (read_session p f) v h = access-Audited manager logging _ _ p v h
  after-Audited (copy_session p) v h = access-Audited manager logging _ _ p v h
  after-Audited (revoke_one p) v h = revoke-Audited manager logging p v h
  after-Audited (clear_one p) v h = revoke-Audited manager logging p v h
  after-Audited (elsewhere f same) v h = λ q. rw (same v.env) (h q)

  run-Audited :
      (os : List Operation) (v : Vault W)
      → Audited manager logging v
      → Audited manager logging (after_all os v)
  unfolding after_all
  run-Audited [] v h = h
  run-Audited (o ∷ os) v h = run-Audited os (after o v) (after-Audited o v h)

  -- After any sequence of calls of a new manager, a credential that is there is of the kind that the
  -- log's latest `Set` or `Rotated` event about its provider names, and its access count is the
  -- number of `AccessGranted` events about its provider since then, as far as a `u64` counts them.
  pub after_all-Audited :
      (os : List Operation) (w : W)
      → Audited manager logging (after_all os (record { credentials = Map.empty; env = w }))
  after_all-Audited os w =
      run-Audited os (record { credentials = Map.empty; env = w })
        (λ p. rw (get-empty {K = ProviderId} {V = CredentialEntry} p) tt)
