-- ===== src/HttpApi/Ends.antt =====
-- Rules for the handlers' steps: each returns with one event and one response, or hands on a
-- value with neither.
use geotagger.Prelude.{
  ℕ, ◌≡◌, ◌≢◌, refl, sym, ap, ◌∙◌, Bool, true, false, String, [], ◌∷◌, ◌++◌, Option, none, some,
  All-append, append_assoc, append-nil,
}
use geotagger.Text.Bytes.{Str, codes, str_eq}
use geotagger.Text.Dict.{Dict, insert, lookup-insert}
use geotagger.Audit.{Event}
use geotagger.HttpApi.Server.{Server, World, Response, Body, Action, continue, ◌>>=◌, ◌>>◌}
use geotagger.HttpApi.Actions.{write_json, write_error, stop}
use geotagger.HttpApi.Handlers.{conclude}
use geotagger.HttpApi.Answered.{
  header_id, Agrees, as_audited, unavailable, Looks, Answered, Untouched, Published,
}

pub Looks-same : (s : Server) (w w' : World) → w'.lookups ≡ w.lookups → Looks s w w'
Looks-same s w w' e = record { searched = []; lookups = e ∙ sym (append-nil _); allowed = tt }

pub Looks-trans : {s : Server} {w w' w'' : World} → Looks s w w' → Looks s w' w'' → Looks s w w''
Looks-trans {w = w} a b = record {
  searched = a.searched ++ b.searched;
  lookups =
      b.lookups
      ∙ ap (λ l. l ++ b.searched) a.lookups
      ∙ append_assoc w.lookups a.searched b.searched;
  allowed = All-append _ a.searched b.searched a.allowed b.allowed;
}

-- How a step ends: the handler has returned, or goes on with a value of which `Q` holds.
module _ (s : Server) (id caller : Str) {A : Type 0} (Q : A → Type 0) (w : World) where
  abbrev pub EndsAt : Option A → World → Type 0
  EndsAt none w' = Answered s id caller w w'
  EndsAt (some a) w' = Untouched s w w' × Q a

pub record Ends (s : Server) (id caller : Str) {A : Type 0} (Q : A → Type 0) (w : World)
    (r : Option A × World) : Type 0 where
  pub at : EndsAt s id caller Q w r.0 r.1

-- What follows the event in a step that returns: nothing but the response.
pub record Closed {A : Type 0} (event : Event) (accepted : Bool) (w : World) (r : Option A × World)
    : Type 0 where
  pub returned : r.0 ≡ none
  pub response : Response
  pub audits : r.1.audits ≡ w.audits
  pub sent : r.1.sent ≡ w.sent ++ response ∷ []
  pub lookups : r.1.lookups ≡ w.lookups
  pub labelled : header_id response.headers ≡ header_id w.headers
  pub agrees : Agrees event accepted response

pub Answered-after :
    {s : Server} {id caller : Str} {w w' w'' : World}
    → Untouched s w w'
    → Answered s id caller w' w''
    → Answered s id caller w w''
Answered-after u a = record {
  event = a.event;
  accepted = a.accepted;
  response = a.response;
  audits = a.audits ∙ ap (λ l. l ++ (a.event, a.accepted) ∷ []) u.audits;
  sent = a.sent ∙ ap (λ l. l ++ a.response ∷ []) u.sent;
  of_request = a.of_request;
  by = a.by;
  agrees = a.agrees;
  labelled = a.labelled ∙ u.labelled;
  looks = Looks-trans u.looks a.looks;
}

pub Untouched-after :
    {s : Server} {w w' w'' : World} → Untouched s w w' → Untouched s w' w'' → Untouched s w w''
Untouched-after u v = record {
  audits = v.audits ∙ u.audits;
  sent = v.sent ∙ u.sent;
  labelled = v.labelled ∙ u.labelled;
  looks = Looks-trans u.looks v.looks;
}

pub Answered-then :
    {s : Server} {id caller : Str} {w w' w'' : World}
    → Answered s id caller w w'
    → Untouched s w' w''
    → Answered s id caller w w''
Answered-then a u = record {
  event = a.event;
  accepted = a.accepted;
  response = a.response;
  audits = u.audits ∙ a.audits;
  sent = u.sent ∙ a.sent;
  of_request = a.of_request;
  by = a.by;
  agrees = a.agrees;
  labelled = a.labelled;
  looks = Looks-trans a.looks u.looks;
}

module _ {s : Server} {id caller : Str} where
  pub Ends-pure :
      {A : Type 0} (Q : A → Type 0) (a : A) {w w' : World}
      → Untouched s w w'
      → Q a
      → Ends s id caller Q w (some a, w')
  Ends-pure Q a u q = record { at = (u, q) }

  pub Ends-Answered :
      {A : Type 0} {Q : A → Type 0} {w : World} (r : Option A × World)
      → r.0 ≡ none
      → Answered s id caller w r.1
      → Ends s id caller Q w r
  Ends-Answered (none, w') e a = record { at = a }
  Ends-Answered (some x, w') e a = cc

  pub Ends-after :
      {A : Type 0} {Q : A → Type 0} {w w' : World} (r : Option A × World)
      → Untouched s w w'
      → Ends s id caller Q w' r
      → Ends s id caller Q w r
  Ends-after (none, w'') u e = record { at = Answered-after u e.at }
  Ends-after (some x, w'') u e = record { at = (Untouched-after u e.at.0, e.at.1) }

  bind_at :
      {A B : Type 0} {P : A → Type 0} {Q : B → Type 0} (f : A → Action B) (w : World)
      (r : Option A × World)
      → Ends s id caller P w r
      → ((a : A) (w' : World) → P a → Ends s id caller Q w' (f a w'))
      → Ends s id caller Q w (continue r.0 f r.1)
  bind_at f w (none, w') e k = record { at = e.at }
  bind_at f w (some x, w') e k = Ends-after (f x w') e.at.0 (k x w' e.at.1)

  -- The rule for a chain.
  pub Ends-bind :
      {A B : Type 0} {P : A → Type 0} {Q : B → Type 0} (m : Action A) (f : A → Action B) (w : World)
      → Ends s id caller P w (m w)
      → ((a : A) (w' : World) → P a → Ends s id caller Q w' (f a w'))
      → Ends s id caller Q w ((m >>= f) w)
  Ends-bind m f w e k = bind_at f w (m w) e k

  -- The rule for a step that publishes its event and then returns.
  pub Ends-publish :
      {A : Type 0} {Q : A → Type 0} {status : ℕ} (w : World) (r : Option Bool × World)
      (k : Bool → Action A) (p : Published id caller status w r)
      → Closed p.event p.accepted r.1 (k p.accepted r.1)
      → Ends s id caller Q w (continue r.0 k r.1)
  Ends-publish w r k p c = rw p.value (
      Ends-Answered (k p.accepted r.1) c.returned (record {
        event = p.event;
        accepted = p.accepted;
        response = c.response;
        audits = c.audits ∙ p.audits;
        sent = c.sent ∙ ap (λ l. l ++ c.response ∷ []) p.sent;
        of_request = p.of_request;
        by = p.by;
        agrees = c.agrees;
        labelled = c.labelled ∙ ap header_id p.headers;
        looks = Looks-same s w _ (c.lookups ∙ p.lookups);
      }))

-- Another header does not change the id.
pub header_id-insert :
    (name value : Str) (headers : Dict Str)
    → str_eq name (codes "X-Request-ID") ≡ false
    → header_id (insert name value headers) ≡ header_id headers
header_id-insert name value headers other =
    lookup-insert name (codes "X-Request-ID") value headers ∙ rw other refl

-- An error response that repeats the event's status.
pub write_error-Closed :
    {A : Type 0} (event : Event) (accepted : Bool) (status : ℕ) (message : String) (w : World)
    → event.status_code ≡ status
    → status ≢ 200
    → Closed {A = A} event accepted w ((write_error status message >> stop) w)
unfolding write_error
write_error-Closed event accepted status message w same failure = record {
  returned = refl;
  response = _;
  audits = refl;
  sent = refl;
  lookups = refl;
  labelled = header_id-insert (codes "Content-Type") _ w.headers (unfold str_eq in refl);
  agrees = as_audited (sym same) (λ e. absurd (failure e));
}

pub conclude-Closed :
    {A : Type 0} (event : Event) (accepted : Bool) (status : ℕ) (body : Body) (w : World)
    → event.status_code ≡ status
    → Closed {A = A} event accepted w (conclude accepted status body w)
unfolding conclude write_json write_error
conclude-Closed event true status body w same = record {
  returned = refl;
  response = _;
  audits = refl;
  sent = refl;
  lookups = refl;
  labelled = header_id-insert (codes "Content-Type") _ w.headers (unfold str_eq in refl);
  agrees = as_audited (sym same) (λ _. refl);
}
conclude-Closed event false status body w same = record {
  returned = refl;
  response = _;
  audits = refl;
  sent = refl;
  lookups = refl;
  labelled = header_id-insert (codes "Content-Type") _ w.headers (unfold str_eq in refl);
  agrees = unavailable refl refl;
}
