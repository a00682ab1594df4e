-- ===== src/Examples/Vaults.antt =====
-- A credential manager whose observer keeps a log.
use fiddlesticks.Base.{ℕ, ◌+◌, none, some, List, [], ◌∷◌, refl}
use fiddlesticks.Base.Map
use fiddlesticks.Provider.Model.{ProviderId}
use fiddlesticks.Provider.Registry.{provider_id_eq}
use fiddlesticks.Provider.Credentials.{CredentialAccessEvent, Vault, SecureCredentialManager}
use fiddlesticks.Provider.Credentials.Manager.{with_api_key, set_api_key_with_ttl}
use fiddlesticks.Provider.Credentials.Access.{KeyRead, with_api_key-Accessed}
use fiddlesticks.Provider.Credentials.Audit.{Logging, Audited}
use fiddlesticks.Provider.Credentials.History as History
use fiddlesticks.Provider.Credentials.History.{after_all, after_all-Audited}

-- The log and the time.
abbrev Diary : Type 0
Diary = List CredentialAccessEvent × ℕ

abbrev manager : SecureCredentialManager Diary
manager = record { observer = some (λ e (log, now). (e ∷ log, now)); now = λ (log, now). now }

abbrev diary-Logging : Logging manager
diary-Logging = record {
  log = λ (log, now). log;
  observe = λ e (log, now). (e ∷ log, now);
  observer_is = refl;
  log-observe = λ e w. refl;
}

abbrev start : Diary
start = ([], 100)

abbrev with_key : Vault Diary
with_key =
    (set_api_key_with_ttl manager ProviderId.open_ai "sk-1" 50
      (record { credentials = Map.empty; env = start })).1

with_api_key-Accessed_example :
    KeyRead manager ProviderId.open_ai
      (λ s. s)
      with_key
      (with_api_key manager ProviderId.open_ai (λ s. s) with_key)
with_api_key-Accessed_example = with_api_key-Accessed manager ProviderId.open_ai (λ s. s) with_key

abbrev calls : List (History.Operation manager diary-Logging)
calls =
    History.set_key_with_ttl ProviderId.open_ai "sk-1" 50
    ∷ History.copy_key ProviderId.open_ai
    ∷ History.elsewhere (λ (log, now). (log, now + 60)) (λ w. refl)
    ∷ History.copy_key ProviderId.open_ai
    ∷ History.set_session ProviderId.open_ai "token" none
    ∷ History.revoke_one ProviderId.ollama
    ∷ []

after_all-Audited_example :
    Audited manager diary-Logging
      (after_all manager diary-Logging calls (record { credentials = Map.empty; env = start }))
after_all-Audited_example = after_all-Audited manager diary-Logging calls start
