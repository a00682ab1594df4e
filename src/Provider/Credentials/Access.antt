-- ===== src/Provider/Credentials/Access.antt =====
-- What reading a credential of fprovider/src/credentials.rs gives, and what it changes.
use fiddlesticks.Base.{
  ◌^◌, false, ◌+◌, arith, ◌<◌, ◌⊎◌, leb, ltb, ◌≤◌, ℕ, String, true, Option, none, some, ◌≡◌, refl,
  ap, sym, ◌∙◌, ◌==◌, if◌then◌else◌, get-insert, get-remove, Option-cases, Bool-cases, inl, inr,
  ==_refl,
}
use fiddlesticks.Base.Map
use fiddlesticks.Base.Map.{HashMap, is_some}
use fiddlesticks.Exec.{Result, ok}
use fiddlesticks.Provider.Error.{ProviderError}
use fiddlesticks.Provider.Model.{ProviderId}
use fiddlesticks.Provider.Registry.{provider_id_eq, tag_iff}
use fiddlesticks.Provider.Credentials.{
  BrowserLoginSession, SecretString, session_credential, key_credential, CredentialMetadata,
  CredentialKind, api_key, access_granted, access_denied, CredentialAccessEvent, mark_used,
  is_expired, ProviderCredential, CredentialEntry, Vault, SecureCredentialManager,
  remove_if_expired,
}
use fiddlesticks.Provider.Credentials.Manager.{
  emit, use_found, use_entry, access, read_key, with_api_key,
}

module _ {W : Type 0} (manager : SecureCredentialManager W) where
  -- The entry that is there and has not expired.
  abbrev pub unexpired : ℕ → Option CredentialEntry → Option CredentialEntry
  unexpired now none = none
  unexpired now (some e) = if is_expired now e.metadata then none else some e

  abbrev pub visible : Vault W → ProviderId → Option CredentialEntry
  visible v p = unexpired (manager.now v.env) (Map.get v.credentials p)

  abbrev pub output :
      {R : Type 0} → (ProviderCredential → Option R) → Option CredentialEntry → Option R
  output read none = none
  output read (some e) = read e.credential

  -- The entry that is left: one that was read is marked.
  abbrev pub left :
      {R : Type 0}
      → (ProviderCredential → Option R)
      → ℕ
      → Option CredentialEntry
      → Option CredentialEntry
  left read now none = none
  left read now (some e) =
      if is_some (read e.credential)
      then some (record e { metadata = mark_used now e.metadata })
      else some e

  abbrev pub told : CredentialAccessEvent → W → W
  told e w = elim manager.observer [ none ↦ w | some on_event ↦ on_event e w ]

  pub emit-credentials :
      (e : CredentialAccessEvent) (v : Vault W) → (emit manager e v).credentials ≡ v.credentials
  unfolding emit
  emit-credentials e v = elim (Option-cases manager.observer) [
    | inl h ↦ rw h refl
    | inr (f, h) ↦ rw h refl
  ]

  pub emit-env : (e : CredentialAccessEvent) (v : Vault W) → (emit manager e v).env ≡ told e v.env
  unfolding emit
  emit-env e v = elim (Option-cases manager.observer) [ inl h ↦ rw h refl | inr (f, h) ↦ rw h refl ]

  pub at_same :
      (m : HashMap ProviderId CredentialEntry) (p q : ProviderId) (o : Option CredentialEntry)
      → Map.get m p ≡ o
      → Map.get m q ≡ (if p == q then o else Map.get m q)
  at_same m p q o h = elim (Bool-cases (p == q)) [
    | inl e ↦ rw e (ap (Map.get m) (sym ((tag_iff p q).0 e)) ∙ h)
    | inr e ↦ rw e refl
  ]

  pub remove_if_expired_lem :
      (m : HashMap ProviderId CredentialEntry) (p q : ProviderId) (now : ℕ)
      → let (expired, m') = remove_if_expired m p now in
        (Map.get m' q ≡ (if p == q then unexpired now (Map.get m p) else Map.get m q))
        × (expired ≡ true → unexpired now (Map.get m p) ≡ none)
  unfolding remove_if_expired
  remove_if_expired_lem m p q now = elim (Option-cases (Map.get m p)) [
    | inl gone ↦ rw gone (at_same m p q none gone, λ h. refl)
    | inr (e, there) ↦ elim (Bool-cases (is_expired now e.metadata)) [
      | inl old ↦ rw (there, old) (get-remove m p q, λ h. refl)
      | inr fresh ↦ rw (there, fresh) (at_same m p q (some e) there, λ h. cc)
    ]
  ]

  use_entry_lem :
      {R : Type 0} (read : ProviderCredential → Option R) (p q : ProviderId) (now : ℕ)
      (m : HashMap ProviderId CredentialEntry)
      → let (r, m') = use_entry manager read p now (Map.get m p) m in
        (r ≡ output read (Map.get m p))
        × (Map.get m' q ≡ (if p == q then left read now (Map.get m p) else Map.get m q))
  unfolding use_entry use_found
  use_entry_lem read p q now m = elim (Option-cases (Map.get m p)) [
    | inl gone ↦ rw gone (refl, at_same m p q none gone)
    | inr (e, there) ↦ elim (Option-cases (read e.credential)) [
      | inl other ↦ rw (there, other) (refl, at_same m p q (some e) there)
      | inr (r, mine) ↦ rw (there, mine) (refl, get-insert m p q _)
    ]
  ]

  -- What a read tells the observer.
  abbrev pub event : {R : Type 0} → CredentialKind → ProviderId → Option R → CredentialAccessEvent
  event kind p r = record {
    provider = p;
    kind = some kind;
    action = if is_some r then access_granted else access_denied;
  }

  -- A read gives what the reader makes of the entry that is visible, marks it as used if that is
  -- something, removes it if it is not visible, changes no other entry, and tells the observer.
  abbrev pub Accessed :
      {R : Type 0}
      → CredentialKind
      → (ProviderCredential → Option R)
      → ProviderId
      → Vault W
      → Result ProviderError (Option R) × Vault W
      → Type 0
  Accessed kind read p v (r, v') =
      let seen = visible v p in
      (r ≡ ok (output read seen))
      × ((q : ProviderId)
          → Map.get v'.credentials q
            ≡ (if p == q then left read (manager.now v.env) seen else Map.get v.credentials q))
      × (v'.env ≡ told (event kind p (output read seen)) v.env)

  at_or_else :
      (p q : ProviderId) (f : Option CredentialEntry → Option CredentialEntry)
      (o o' x y : Option CredentialEntry)
      → o ≡ o'
      → x ≡ (if p == q then o' else y)
      → (if p == q then f o else x) ≡ (if p == q then f o' else y)
  at_or_else p q f o o' x y e h = elim (Bool-cases (p == q)) [
    | inl same ↦ rw same (ap f e)
    | inr other ↦ rw other (rw other at h)
  ]

  pub access-Accessed :
      {R : Type 0} (kind : CredentialKind) (read : ProviderCredential → Option R) (p : ProviderId)
      (v : Vault W)
      → Accessed kind read p v (access manager kind read p v)
  unfolding access
  access-Accessed kind read p v =
      let now = manager.now v.env in
      let m = v.credentials in
      let m1 = (remove_if_expired m p now).1 in
      let removed = λ (q : ProviderId). (remove_if_expired_lem m p q now).0 in
      let at_p : Map.get m1 p ≡ visible v p = rw (==_refl p) at (removed p) in
      let (r, m2) = use_entry manager read p now (Map.get m1 p) m1 in
      elim (Bool-cases (remove_if_expired m p now).0) [
        | inl expired ↦
            let unseen = (remove_if_expired_lem m p p now).1 expired in
            rw (expired, unseen)
              (
                refl,
                λ q. ap (λ c. Map.get c q) (emit-credentials _ _) ∙ rw unseen at (removed q),
                emit-env _ _,
              )
        | inr fresh ↦
            let found = (use_entry_lem read p p now m1).0 ∙ ap (output read) at_p in
            rw (fresh, found)
              (
                refl,
                λ q.
                    ap (λ c. Map.get c q) (emit-credentials _ _)
                    ∙ (use_entry_lem read p q now m1).1
                    ∙ at_or_else p q (left read now) _ _ _ _ at_p (removed q),
                emit-env _ _,
              )
      ]

  -- The time of the entry's expiry, if it has one, is not past.
  abbrev pub Fresh : ℕ → CredentialMetadata → Type 0
  Fresh now m = (t : ℕ) → m.expires_at ≡ some t → now < t

  -- The entry as it is after a use at a time, with one more access, which a `u64` holds.
  abbrev pub used : ℕ → CredentialEntry → CredentialEntry
  used now e = record {
    credential = e.credential;
    metadata = record {
      created_at = e.metadata.created_at;
      expires_at = e.metadata.expires_at;
      last_used_at = some now;
      last_rotated_at = e.metadata.last_rotated_at;
      access_count =
          if ltb (e.metadata.access_count + 1) (2 ^ 64)
          then e.metadata.access_count + 1
          else e.metadata.access_count;
    };
  }

  -- From the entry of a provider, a read of its key leaves an entry and gives an answer.
  abbrev pub Reads :
      {R : Type 0}
      → (String → R)
      → ℕ
      → Option CredentialEntry
      → Option CredentialEntry
      → Option R
      → Type 0
  Reads f now none after answer = (after ≡ none) × (answer ≡ none)
  Reads f now (some e) after answer =
      ((t : ℕ) × (e.metadata.expires_at ≡ some t) × (t ≤ now) × (after ≡ none) × (answer ≡ none))
      ⊎ ((Fresh now e.metadata
            × (key : SecretString) × (e.credential ≡ key_credential key)
            × (after ≡ some (used now e))
            × (answer ≡ some (f key.value)))
          ⊎ (Fresh now e.metadata
              × (session : BrowserLoginSession) × (e.credential ≡ session_credential session)
              × (after ≡ some e)
              × (answer ≡ none)))

  Fresh-Reads :
      {R : Type 0} (f : String → R) (now : ℕ) (c : ProviderCredential) (m : CredentialMetadata)
      → Fresh now m
      → let e : CredentialEntry = record { credential = c; metadata = m } in
        Reads f now
          (some e)
          (left (read_key manager f) now (some e))
          (output (read_key manager f) (some e))
  unfolding mark_used
  Fresh-Reads f now (key_credential key) m fresh = inr (inl (fresh, key, refl, refl, refl))
  Fresh-Reads f now (session_credential s) m fresh = inr (inr (fresh, s, refl, refl, refl))

  expired_lem :
      (now : ℕ) (m : CredentialMetadata)
      → is_expired now m ≡ true
      → (t : ℕ) × (m.expires_at ≡ some t) × (t ≤ now)
  unfolding is_expired
  expired_lem now m h = past m.expires_at h
    where
      past :
          (o : Option ℕ)
          → elim o [ none ↦ false | some t ↦ leb t now ] ≡ true
          → (t : ℕ) × (o ≡ some t) × (t ≤ now)
      past none h = cc
      past (some t) h = (t, refl, ground arith)

  fresh_lem : (now : ℕ) (m : CredentialMetadata) → is_expired now m ≡ false → Fresh now m
  unfolding is_expired
  fresh_lem now m h t ends = ground (arith, ends)

  reads_lem :
      {R : Type 0} (f : String → R) (now : ℕ) (o : Option CredentialEntry)
      → Reads f now o
          (left (read_key manager f) now (unexpired now o))
          (output (read_key manager f) (unexpired now o))
  reads_lem f now none = (refl, refl)
  reads_lem f now (some e) = elim (Bool-cases (is_expired now e.metadata)) [
    | inl old ↦
        let (t, ends, past) = expired_lem now e.metadata old in
        rw old (inl (t, ends, past, refl, refl))
    | inr young ↦
        rw young (Fresh-Reads f now e.credential e.metadata (fresh_lem now e.metadata young))
  ]

  -- What a read of a provider's key gives and leaves.
  abbrev pub KeyRead :
      {R : Type 0}
      → ProviderId
      → (String → R)
      → Vault W
      → Result ProviderError (Option R) × Vault W
      → Type 0
  KeyRead {R} p f v (r, v') =
      (answer : Option R) × (after : Option CredentialEntry) × (r ≡ ok answer)
      × Reads f (manager.now v.env) (Map.get v.credentials p) after answer
      × ((q : ProviderId)
          → Map.get v'.credentials q ≡ (if p == q then after else Map.get v.credentials q))
      × (v'.env ≡ told (event api_key p answer) v.env)

  -- `with_api_key` gives the reader's answer for the key of a provider whose entry is a key and does not
  -- expire or expires later than now: it stamps that entry with the time, and adds one to its count of
  -- accesses while a `u64` holds it. For any other entry it gives nothing: one whose expiry is not later
  -- than now it removes, a session it leaves. No other entry changes, and the observer is told of the
  -- access, as granted exactly if there is an answer.
  pub with_api_key-Accessed :
      {R : Type 0} (p : ProviderId) (f : String → R) (v : Vault W)
      → KeyRead p f v (with_api_key manager p f v)
  unfolding with_api_key
  with_api_key-Accessed p f v =
      let (gives, leaves, tells) = access-Accessed api_key (read_key manager f) p v in
      (_, _, gives, reads_lem f (manager.now v.env) (Map.get v.credentials p), leaves, tells)
