-- ===== src/Provider/Credentials.antt =====
-- fprovider/src/credentials.rs: secrets in memory, by provider. That a secret's bytes are cleared when
-- it is dropped is not modelled, nor is a lock that a panicking reader has poisoned.
pub mod Manager
pub mod Access
pub mod Audit
pub mod History
use fiddlesticks.Base.{
  ℕ, ◌+◌, ◌*◌, ◌^◌, String, Bool, true, false, Option, none, some, if◌then◌else◌, ltb, leb, eqb,
  is_empty_text,
}
use fiddlesticks.Base.Map
use fiddlesticks.Base.Map.{HashMap, is_some}
use fiddlesticks.Exec.{Result, ok, err, Exec, lift, pure, raise, ◌>>=◌, ◌>>◌}
use fiddlesticks.Provider.Error.{ProviderError, ProviderErrorKind, of_kind}
use fiddlesticks.Provider.Model.{ProviderId}
use fiddlesticks.Provider.Registry.{provider_id_eq}

pub data CredentialKind : Type 0 where
  api_key browser_session : CredentialKind

pub data CredentialAccessAction : Type 0 where
  set rotated access_granted access_denied cleared : CredentialAccessAction

pub record CredentialAccessEvent : Type 0 where
  pub provider : ProviderId
  pub kind : Option CredentialKind
  pub action : CredentialAccessAction

-- A time is a number of nanoseconds, and a count is a `u64`.
pub record CredentialMetadata : Type 0 where
  pub created_at : ℕ
  pub expires_at : Option ℕ
  pub last_used_at : Option ℕ
  pub last_rotated_at : Option ℕ
  pub access_count : ℕ

unfoldable pub new_metadata : ℕ → Option ℕ → CredentialMetadata
new_metadata created_at expires_at = record {
  created_at = created_at;
  expires_at = expires_at;
  last_used_at = none;
  last_rotated_at = none;
  access_count = 0;
}

unfoldable pub with_rotation : ℕ → Option ℕ → CredentialMetadata
with_rotation now expires_at = record {
  created_at = now;
  expires_at = expires_at;
  last_used_at = none;
  last_rotated_at = some now;
  access_count = 0;
}

-- `u64::saturating_add(1)`
abbrev pub saturating_next : ℕ → ℕ
saturating_next n = if ltb (n + 1) (2 ^ 64) then n + 1 else n

unfoldable pub mark_used : ℕ → CredentialMetadata → CredentialMetadata
mark_used now m = record m {
  last_used_at = some now;
  access_count = saturating_next m.access_count;
}

unfoldable pub is_expired : ℕ → CredentialMetadata → Bool
is_expired now m = elim m.expires_at [ none ↦ false | some expires_at ↦ leb expires_at now ]

pub record SecretString : Type 0 where
  pub value : String

pub record BrowserLoginSession : Type 0 where
  pub session_token : SecretString
  pub expires_at : Option ℕ

pub data ProviderCredential : Type 0 where
  key_credential : SecretString → ProviderCredential
  session_credential : BrowserLoginSession → ProviderCredential

-- `ProviderCredential::kind`
unfoldable pub kind_of : ProviderCredential → CredentialKind
kind_of (key_credential secret) = api_key
kind_of (session_credential session) = browser_session

pub record CredentialEntry : Type 0 where
  pub credential : ProviderCredential
  pub metadata : CredentialMetadata

-- What is behind the lock, beside the state of everything else, which the observer may change.
pub record Vault (W : Type 0) : Type 0 where
  pub credentials : HashMap ProviderId CredentialEntry
  pub env : W

-- The manager's observer, and the clock.
pub record SecureCredentialManager (W : Type 0) : Type 0 where
  pub observer : Option (CredentialAccessEvent → W → W)
  pub now : W → ℕ

abbrev pub authentication_error : String → ProviderError
authentication_error m = of_kind ProviderErrorKind.authentication m

-- `SystemTime::checked_add`: the seconds of a time are an `i64`.
unfoldable pub checked_add : ℕ → ℕ → Option ℕ
checked_add now ttl = if ltb (now + ttl) (2 ^ 63 * 1000000000) then some (now + ttl) else none

unfoldable pub remove_if_expired :
    HashMap ProviderId CredentialEntry → ProviderId → ℕ → Bool × HashMap ProviderId CredentialEntry
remove_if_expired credentials provider now =
    let expired : Bool = elim (Map.get credentials provider) [
      | none ↦ false
      | some e ↦ is_expired now e.metadata
    ] in
    if expired then (true, Map.remove credentials provider) else (false, credentials)
