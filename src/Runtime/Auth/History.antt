-- ===== src/Runtime/Auth/History.antt =====
-- The keys of a connection after any sequence of its operations.
use tangle.Common.{
  ℕ, ◌≤◌, ◌≡◌, refl, sym, subst, inl, inr, Bool, true, some, List, [], ◌∷◌, ok, err, Result, Text,
  arith, eqb, eqb_iff, list_ord, nat_ord, contains, contains-add, In, here, there, Result-cases,
  Bool-cases, all_whitespace,
}
use tangle.Protocol.{PublicKeyHex, UnixTimestamp, saturating_add, u64_max}
use tangle.Groups.EventView.{PocketEvent}
use tangle.Runtime.Errors.{BaseRelayError}
use tangle.Runtime.Auth.{
  is_empty, new_auth_state, BaseAuthState, BaseAuthChallenge, BaseRelayAuthEvent, accept_relay_url,
  issue_challenge, authenticate_pocket,
}
use tangle.Runtime.Auth.Spec.{Answers, authenticate_pocket_iff}

pub data AuthOperation : Type 0 where
  accept_url : Text → AuthOperation
  issue : Text → UnixTimestamp → AuthOperation
  authenticate : PocketEvent → UnixTimestamp → AuthOperation

-- The state after a result: an operation that fails leaves it.
abbrev pub state_or {ℓ} :
    {A : Type ℓ} → (A → BaseAuthState) → BaseAuthState → Result BaseRelayError A → BaseAuthState
state_or f s (ok a) = f a
state_or f s (err e) = s

module _ (verified : PocketEvent → Bool) where
  unfoldable pub after_operation : AuthOperation → BaseAuthState → BaseAuthState
  after_operation (accept_url url) s = state_or (λ t. t) s (accept_relay_url url s)
  after_operation (issue challenge at) s =
      state_or (λ answer. answer.0) s (issue_challenge challenge at s)
  after_operation (authenticate event now) s =
      state_or (λ answer. answer.0) s (authenticate_pocket verified event now s)

  unfoldable pub after_operations : List AuthOperation → BaseAuthState → BaseAuthState
  unfolding after_operation
  after_operations [] s = s
  after_operations (operation ∷ operations) s =
      after_operations operations (after_operation operation s)

  -- Among the operations `P` one issued a challenge and one was a signed answer of the key to it.
  pub record Login (P : AuthOperation → Type 0) (ttl : ℕ) (key : PublicKeyHex) : Type 0 where
    pub event : PocketEvent
    pub now : UnixTimestamp
    pub auth : BaseRelayAuthEvent
    pub issued : BaseAuthChallenge
    pub answered : P (authenticate event now)
    pub asked : P (issue issued.value issued.issued_at)
    pub signed : verified event ≡ true
    pub answers : Answers event auth
    pub matches : auth.challenge ≡ issued.value
    pub author : auth.pubkey ≡ key
    pub in_time : now ≤ saturating_add u64_max issued.issued_at ttl

  record Justified (P : AuthOperation → Type 0) (ttl : ℕ) (s : BaseAuthState) : Type 0 where
    keys : (key : PublicKeyHex) → contains key s.authenticated_pubkeys ≡ true → Login P ttl key
    pending : (c : BaseAuthChallenge) → s.challenge ≡ some c → P (issue c.value c.issued_at)
    fixed : s.challenge_ttl_seconds ≡ ttl

  module _ (P : AuthOperation → Type 0) (ttl : ℕ) (s : BaseAuthState) (j : Justified P ttl s) where
    accept-Justified : (url : Text) → Justified P ttl (after_operation (accept_url url) s)
    unfolding after_operation accept_relay_url
    accept-Justified url = elim (Bool-cases (all_whitespace url)) [
      | inl e ↦ rw e j
      | inr e ↦ rw e (record { keys = j.keys; pending = j.pending; fixed = j.fixed })
    ]

    issue-Justified :
        (challenge : Text) (at : UnixTimestamp)
        → P (issue challenge at)
        → Justified P ttl (after_operation (issue challenge at) s)
    unfolding after_operation issue_challenge
    issue-Justified challenge at seen = elim (Bool-cases (is_empty challenge)) [
      | inl e ↦ rw e j
      | inr e ↦ rw e (record {
        keys = j.keys;
        pending = λ c h.
            let same : record { value = challenge; issued_at = at } ≡ c = ground arith in
            subst (λ (x : BaseAuthChallenge). P (issue x.value x.issued_at)) same seen;
        fixed = j.fixed;
      })
    ]

    authenticate-Justified :
        (event : PocketEvent) (now : UnixTimestamp)
        → P (authenticate event now)
        → Justified P ttl (after_operation (authenticate event now) s)
    unfolding after_operation
    authenticate-Justified event now seen =
        elim (Result-cases (authenticate_pocket verified event now s)) [
          | inr (x, e) ↦ rw e j
          | inl ((t, key), e) ↦
              let (auth, a, state, author) =
                (authenticate_pocket_iff verified event now s t key).0 e in
              rw (e, state)
                (record {
                  keys = λ other h. elim (Bool-cases (eqb {A = PublicKeyHex} other auth.pubkey)) [
                    | inl same ↦ record {
                      event = event;
                      now = now;
                      auth = auth;
                      issued = a.issued;
                      answered = seen;
                      asked = j.pending a.issued a.asked;
                      signed = a.signed;
                      answers = a.answers;
                      matches = a.answered;
                      author = sym ((eqb_iff {A = PublicKeyHex} other auth.pubkey).0 same);
                      in_time =
                          subst (λ ttl'. now ≤ saturating_add u64_max a.issued.issued_at ttl')
                            j.fixed a.in_time;
                    }
                    | inr different ↦ j.keys other (
                        ground (
                          arith,
                          contains-add {K = PublicKeyHex} auth.pubkey other s.authenticated_pubkeys,
                        ))
                  ];
                  pending = j.pending;
                  fixed = j.fixed;
                })
        ]

  run-Justified :
      (P : AuthOperation → Type 0) (ttl : ℕ) (operations : List AuthOperation) (s : BaseAuthState)
      → ((o : AuthOperation) → In o operations → P o)
      → Justified P ttl s
      → Justified P ttl (after_operations operations s)
  unfolding after_operations
  run-Justified P ttl [] s seen j = j
  run-Justified P ttl (operation ∷ operations) s seen j =
      run-Justified P ttl operations (after_operation operation s) (λ o m. seen o (there m))
        (one operation (seen operation (here refl)))
    where
      one : (o : AuthOperation) → P o → Justified P ttl (after_operation o s)
      one (accept_url url) p = accept-Justified P ttl s j url
      one (issue challenge at) p = issue-Justified P ttl s j challenge at p
      one (authenticate event now) p = authenticate-Justified P ttl s j event now p

  -- Every key of a connection is the author of a signed event that answered, in its time, a challenge
  -- that this connection issued, whatever operations ran, failed ones included.
  pub authenticated_by_answer :
      (relay_url : Text) (ttl skew : ℕ) (fresh : BaseAuthState) (operations : List AuthOperation)
      (key : PublicKeyHex)
      → new_auth_state relay_url ttl skew ≡ ok fresh
      → contains key (after_operations operations fresh).authenticated_pubkeys ≡ true
      → Login (λ o. In o operations) ttl key
  unfolding new_auth_state contains
  authenticated_by_answer relay_url ttl skew fresh operations key made h =
      (run-Justified (λ o. In o operations) ttl operations fresh (λ o m. m)
          (record {
            keys = λ other c. absurd (ground arith);
            pending = λ c e. absurd (ground arith);
            fixed = ground arith;
          })).keys
        key h
