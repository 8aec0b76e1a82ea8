-- ===== src/AdminHttp/Verdicts.antt =====
-- Checks that let a handler go on or have answered, and what a handler leaves behind.
use geotagger.Prelude.{ℕ, ◌≡◌, refl, ap, ◌∙◌, [], ◌∷◌, ◌++◌, Option, none, some}
use geotagger.AdminHttp.Server.{Body, issued, revoked, Response, World, Action, proceed, ◌>>=◌}
use geotagger.AdminHttp.Actions.{set_header, write_json, answer}

-- A body that neither hands out a token nor reports a revocation.
abbrev pub IsPlain : Body → Type 0
IsPlain (issued v token pending) = ⊥
IsPlain (revoked v pending) = ⊥
IsPlain _ = Unit

module _ {S : Type 0} where
  -- The keys, the verifier, the log and the responses are as they were.
  pub record Same (w v : World S) : Type 0 where
    pub bucket : v.bucket ≡ w.bucket
    pub auth : v.auth ≡ w.auth
    pub log : v.log ≡ w.log
    pub sent : v.sent ≡ w.sent

  -- One response, and the keys, the verifier and the log are as they were.
  pub record Quiet (w v : World S) : Type 0 where
    pub response : Response
    pub sent : v.sent ≡ w.sent ++ response ∷ []
    pub bucket : v.bucket ≡ w.bucket
    pub auth : v.auth ≡ w.auth
    pub log : v.log ≡ w.log
    pub plain : IsPlain response.body

  -- A check lets the handler go on, or has answered.
  pub data Verdict {A : Type 0} (w : World S) : Option A × World S → Type 0 where
    passed : (a : A) (v : World S) → Same w v → Verdict w (some a, v)
    refused : (v : World S) → Quiet w v → Verdict w (none, v)

  pub Same-Quiet : (w u v : World S) → Same w u → Quiet u v → Quiet w v
  Same-Quiet w u v a q = record {
    response = q.response;
    sent = q.sent ∙ ap (λ l. l ++ q.response ∷ []) a.sent;
    bucket = q.bucket ∙ a.bucket;
    auth = q.auth ∙ a.auth;
    log = q.log ∙ a.log;
    plain = q.plain;
  }

  pub same : (w : World S) → Same w w
  same w = record { bucket = refl; auth = refl; log = refl; sent = refl }

  pub bind-Verdict :
      {A B : Type 0} (m : Action S A) (k : A → Action S B) (w : World S)
      → Verdict w (m w)
      → ((a : A) (u : World S) → Verdict u (k a u))
      → Verdict w ((m >>= k) w)
  bind-Verdict {A} {B} m k w checked rest = go (m w) checked
    where
      after : (u : World S) (r : Option B × World S) → Same w u → Verdict u r → Verdict w r
      after u r a (passed b v c) = passed b v (record {
        bucket = c.bucket ∙ a.bucket;
        auth = c.auth ∙ a.auth;
        log = c.log ∙ a.log;
        sent = c.sent ∙ a.sent;
      })
      after u r a (refused v q) = refused v (Same-Quiet w u v a q)

      go : (r : Option A × World S) → Verdict w r → Verdict w (proceed r.0 k r.1)
      go r (passed a v s) = after v (k a v) s (rest a v)
      go r (refused v q) = refused v q

  -- A relation that a check which passes or answers does not disturb.
  pub record IsRobust (P : World S → World S → Type 0) : Type 0 where
    pub of_quiet : (w v : World S) → Quiet w v → P w v
    pub of_same : (w u v : World S) → Same w u → P u v → P w v

  pub bind-IsRobust :
      {P : World S → World S → Type 0} {A B : Type 0} (robust : IsRobust P) (m : Action S A)
      (k : A → Action S B) (w : World S)
      → Verdict w (m w)
      → ((a : A) (u : World S) → P u (k a u).1)
      → P w ((m >>= k) w).1
  bind-IsRobust {P} {A} robust m k w checked rest = go (m w) checked
    where
      go : (r : Option A × World S) → Verdict w r → P w (proceed r.0 k r.1).1
      go r (passed a v s) = robust.of_same w v (k a v).1 s (rest a v)
      go r (refused v q) = robust.of_quiet w v q

  pub answer-Verdict :
      {A : Type 0} (code : ℕ) (body : Body) (plain : IsPlain body) (w : World S)
      → Verdict w (answer {A = A} code body w)
  unfolding answer write_json set_header
  answer-Verdict code body plain w =
      refused _ (record {
        response = _;
        sent = refl;
        bucket = refl;
        auth = refl;
        log = refl;
        plain = plain;
      })

  pub give-Verdict : {A : Type 0} (a : A) (w : World S) → Verdict w (some a, w)
  give-Verdict a w = passed a w (same w)
