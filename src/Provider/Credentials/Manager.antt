-- ===== src/Provider/Credentials/Manager.antt =====
-- The operations of `SecureCredentialManager` of fprovider/src/credentials.rs.
use fiddlesticks.Base.{
  ℕ, String, Bool, true, false, Option, none, some, if◌then◌else◌, eqb, is_empty_text,
}
use fiddlesticks.Base.Map
use fiddlesticks.Base.Map.{HashMap, is_some}
use fiddlesticks.Exec.{ok, err, Exec}
use fiddlesticks.Provider.Error.{ProviderError}
use fiddlesticks.Provider.Model.{ProviderId}
use fiddlesticks.Provider.Registry.{provider_id_eq}
use fiddlesticks.Provider.Credentials.{
  access_granted, access_denied, set, api_key, browser_session, cleared, rotated, new_metadata,
  CredentialKind, ProviderCredential, key_credential, CredentialAccessAction, Vault,
  BrowserLoginSession, checked_add, mark_used, authentication_error, remove_if_expired, kind_of,
  SecretString, session_credential, SecureCredentialManager, CredentialEntry, with_rotation,
  CredentialAccessEvent, CredentialMetadata,
}

module _ {W : Type 0} (manager : SecureCredentialManager W) where
  unfoldable pub emit : CredentialAccessEvent → Vault W → Vault W
  emit event v = elim manager.observer [
    | none ↦ v
    | some on_event ↦ record v { env = on_event event v.env }
  ]

  unfoldable pub insert_credential :
      ProviderId → ProviderCredential → Option ℕ → Vault W → CredentialAccessAction × Vault W
  insert_credential provider credential expires_at v =
      let now = manager.now v.env in
      let there = Map.contains_key v.credentials provider in
      let action = if there then rotated else set in
      let metadata = if there then with_rotation now expires_at else new_metadata now expires_at in
      let entry : CredentialEntry = record { credential = credential; metadata = metadata } in
      (action, record v { credentials = Map.insert v.credentials provider entry })

  -- Insert a credential, and tell the observer what that did.
  unfoldable pub insert_and_emit : ProviderId → ProviderCredential → Option ℕ → Vault W → Vault W
  insert_and_emit provider credential expires_at v =
      let (action, v') = insert_credential provider credential expires_at v in
      emit (record { provider = provider; kind = some (kind_of credential); action = action }) v'

  unfoldable pub set_api_key_with_expiry :
      ProviderId → String → Option ℕ → Exec (Vault W) ProviderError (Unit {0})
  set_api_key_with_expiry provider key expires_at v =
      if is_empty_text key
      then (err (authentication_error "api key must not be empty"), v)
      else (ok tt, insert_and_emit provider (key_credential (record { value = key })) expires_at v)

  unfoldable pub set_api_key : ProviderId → String → Exec (Vault W) ProviderError (Unit {0})
  set_api_key provider key = set_api_key_with_expiry provider key none

  -- What is done with the time at which the key expires.
  unfoldable pub set_until :
      ProviderId → String → Option ℕ → Exec (Vault W) ProviderError (Unit {0})
  set_until provider key none v =
      (err (authentication_error "api key ttl is out of supported range"), v)
  set_until provider key (some expires_at) v =
      set_api_key_with_expiry provider key (some expires_at) v

  unfoldable pub set_api_key_with_ttl :
      ProviderId → String → ℕ → Exec (Vault W) ProviderError (Unit {0})
  set_api_key_with_ttl provider key ttl v =
      if eqb ttl 0
      then (err (authentication_error "api key ttl must be greater than zero"), v)
      else set_until provider key (checked_add (manager.now v.env) ttl) v

  unfoldable pub rotate_api_key :
      ProviderId → String → Option ℕ → Exec (Vault W) ProviderError (Unit {0})
  rotate_api_key provider key none = set_api_key provider key
  rotate_api_key provider key (some ttl) = set_api_key_with_ttl provider key ttl

  unfoldable pub set_browser_session :
      ProviderId → String → Option ℕ → Exec (Vault W) ProviderError (Unit {0})
  set_browser_session provider token expires_at v =
      let session : BrowserLoginSession = record {
        session_token = record { value = token };
        expires_at = expires_at;
      } in
      if is_empty_text token
      then (err (authentication_error "browser session token must not be empty"), v)
      else (ok tt, insert_and_emit provider (session_credential session) expires_at v)

  -- The lookups that read the entry, once an expired one is removed.
  unfoldable pub look :
      {A : Type 0} → (Option CredentialEntry → A) → A → ProviderId → Exec (Vault W) ProviderError A
  look read expired_value provider v =
      let (expired, credentials) = remove_if_expired v.credentials provider (manager.now v.env) in
      let v' = record v { credentials = credentials } in
      if expired then (ok expired_value, v') else (ok (read (Map.get credentials provider)), v')

  unfoldable pub has_credentials : ProviderId → Exec (Vault W) ProviderError Bool
  has_credentials = look is_some false

  unfoldable pub credential_kind : ProviderId → Exec (Vault W) ProviderError (Option CredentialKind)
  credential_kind = look (λ o. elim o [ none ↦ none | some e ↦ some (kind_of e.credential) ]) none

  unfoldable pub credential_metadata :
      ProviderId → Exec (Vault W) ProviderError (Option CredentialMetadata)
  credential_metadata = look (λ o. elim o [ none ↦ none | some e ↦ some e.metadata ]) none

  -- What the reader made of a credential, which is then marked as used; `none` if it is of another
  -- kind.
  unfoldable pub use_found :
      {R : Type 0}
      → ProviderId
      → ℕ
      → CredentialEntry
      → HashMap ProviderId CredentialEntry
      → Option R
      → Option R × HashMap ProviderId CredentialEntry
  use_found provider now e credentials none = (none, credentials)
  use_found provider now e credentials (some r) =
      (some r, Map.insert credentials provider (record e { metadata = mark_used now e.metadata }))

  -- `match credentials.get_mut(&provider)`
  unfoldable pub use_entry :
      {R : Type 0}
      → (ProviderCredential → Option R)
      → ProviderId
      → ℕ
      → Option CredentialEntry
      → HashMap ProviderId CredentialEntry
      → Option R × HashMap ProviderId CredentialEntry
  unfolding use_found
  use_entry read provider now none credentials = (none, credentials)
  use_entry read provider now (some e) credentials =
      use_found provider now e credentials (read e.credential)

  -- The body of `with_api_key` and `with_browser_session`.
  unfoldable pub access :
      {R : Type 0}
      → CredentialKind
      → (ProviderCredential → Option R)
      → ProviderId
      → Exec (Vault W) ProviderError (Option R)
  access kind read provider v =
      let now = manager.now v.env in
      let tell = λ (action : CredentialAccessAction).
        emit (record { provider = provider; kind = some kind; action = action }) in
      let (expired, credentials) = remove_if_expired v.credentials provider now in
      let v1 = record v { credentials = credentials } in
      let (output, used) = use_entry read provider now (Map.get credentials provider) credentials in
      let v2 = record v { credentials = used } in
      if expired
      then (ok none, tell access_denied v1)
      else (ok output, tell (if is_some output then access_granted else access_denied) v2)

  abbrev pub read_key : {R : Type 0} → (String → R) → ProviderCredential → Option R
  read_key f (key_credential secret) = some (f secret.value)
  read_key f (session_credential session) = none

  abbrev pub read_session : {R : Type 0} → (BrowserLoginSession → R) → ProviderCredential → Option R
  read_session f (key_credential secret) = none
  read_session f (session_credential session) = some (f session)

  unfoldable pub with_api_key :
      {R : Type 0} → ProviderId → (String → R) → Exec (Vault W) ProviderError (Option R)
  with_api_key provider f = access api_key (read_key f) provider

  unfoldable pub api_key_of : ProviderId → Exec (Vault W) ProviderError (Option SecretString)
  api_key_of provider = with_api_key provider (λ value. record { value = value })

  unfoldable pub with_browser_session :
      {R : Type 0}
      → ProviderId
      → (BrowserLoginSession → R)
      → Exec (Vault W) ProviderError (Option R)
  with_browser_session provider f = access browser_session (read_session f) provider

  unfoldable pub browser_session_of :
      ProviderId → Exec (Vault W) ProviderError (Option BrowserLoginSession)
  browser_session_of provider = with_browser_session provider (λ session. session)

  unfoldable pub revoke : ProviderId → Exec (Vault W) ProviderError Bool
  revoke provider v =
      let removed = Map.get v.credentials provider in
      let v' = record v { credentials = Map.remove v.credentials provider } in
      elim removed [
        | none ↦ (ok false, v')
        | some e ↦ (
          ok true,
          emit
              (record { provider = provider; kind = some (kind_of e.credential); action = cleared })
              v',
        )
      ]

  unfoldable pub clear : ProviderId → Exec (Vault W) ProviderError Bool
  clear provider = revoke provider
