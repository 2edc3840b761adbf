-- ===== src/JsonRpc/Batch.antt =====
-- Requests alone and in a batch: which ones are answered, and how.
use piso_chain.Base.{◌≡◌, ◌⊎◌, inl, inr, refl, Bool, Option, none, some, Text, text_key}
use piso_chain.Int.{pos}
use piso_chain.Text.{codes}
use piso_chain.Dict.{lookup}
use piso_chain.Outcome.{Result, ok, err}
use piso_chain.Json.{Json, Items, get_member}
use piso_chain.JsonRpc.{
  Method, minus, response, error_value, answer_of, call, dispatch_method, dispatch_named, dispatch,
  dispatch_all, parse_error, do_post, methods, joined,
}

-- The value is no list and no object.
abbrev pub IsKey : Json → Type 0
IsKey Json.null = Unit
IsKey (Json.boolean b) = Unit
IsKey (Json.integer n) = Unit
IsKey (Json.decimal t) = Unit
IsKey (Json.text t) = Unit
IsKey (Json.array items) = ⊥
IsKey (Json.object pairs) = ⊥

-- An object whose method, if it has one, is no list and no object.
abbrev pub IsRequest : Json → Type 0
IsRequest (Json.object req) = IsKey (get_member Json.null (codes "method") req)
IsRequest Json.null = ⊥
IsRequest (Json.boolean b) = ⊥
IsRequest (Json.integer n) = ⊥
IsRequest (Json.decimal t) = ⊥
IsRequest (Json.text t) = ⊥
IsRequest (Json.array items) = ⊥

-- A result, or an error with one of the two codes, under the id.
abbrev pub IsAnswer : Json → Json → Type 0
IsAnswer req_id answer =
    ((value : Json) × (answer ≡ response req_id (codes "result") value))
    ⊎ ((message : Text) × ((answer
            ≡ response req_id (codes "error") (error_value (minus 32601) message))
          ⊎ (answer ≡ response req_id (codes "error") (error_value (minus 32000) message))))

-- the id of a request, 1 where it has none
abbrev pub id_of : Json → Json
id_of (Json.object req) = get_member (Json.integer (pos 1)) (codes "id") req
id_of other = Json.integer (pos 1)

abbrev pub AllRequests : Items → Type 0
AllRequests Items.no_items = Unit
AllRequests (Items.item r req) = IsRequest r × AllRequests req

-- One answer for each request, in their order.
abbrev pub AllAnswered : Items → Items → Type 0
AllAnswered Items.no_items Items.no_items = Unit
AllAnswered Items.no_items (Items.item answer answers) = ⊥
AllAnswered (Items.item r req) Items.no_items = ⊥
AllAnswered (Items.item r req) (Items.item answer answers) =
    IsAnswer (id_of r) answer × AllAnswered req answers

module _ (sha256_hex : Text → Result Text Text) where
  answer_of-IsAnswer : (req_id : Json) (r : Result Text Json) → IsAnswer req_id (answer_of req_id r)
  unfolding answer_of
  answer_of-IsAnswer req_id (ok result) = inl (result, refl)
  answer_of-IsAnswer req_id (err message) = inr (message, inr refl)

  dispatch_method-IsAnswer :
      (req_id params : Json) (name : Text) (found : Option Method)
      → IsAnswer req_id (dispatch_method sha256_hex req_id params name found)
  unfolding dispatch_method
  dispatch_method-IsAnswer req_id params name none = inr (_, inl refl)
  dispatch_method-IsAnswer req_id params name (some method) =
      answer_of-IsAnswer req_id (call sha256_hex method params)

  -- A dispatched request: either it is one, and answered, or it is none, and raises.
  abbrev Settled : Type 0 → Json → Option Json → Type 0
  Settled Request req_id r =
      (Request × (answer : Json) × (r ≡ some answer) × IsAnswer req_id answer)
      ⊎ ((¬ Request) × (r ≡ none))

  dispatch_named-Settled :
      (req_id params method : Json)
      → Settled (IsKey method) req_id (dispatch_named sha256_hex req_id params method)
  unfolding dispatch_named
  dispatch_named-Settled req_id params Json.null = inl (tt, _, refl, inr (_, inl refl))
  dispatch_named-Settled req_id params (Json.boolean Bool.true) =
      inl (tt, _, refl, inr (_, inl refl))
  dispatch_named-Settled req_id params (Json.boolean Bool.false) =
      inl (tt, _, refl, inr (_, inl refl))
  dispatch_named-Settled req_id params (Json.integer n) = inl (tt, _, refl, inr (_, inl refl))
  dispatch_named-Settled req_id params (Json.decimal t) = inl (tt, _, refl, inr (_, inl refl))
  dispatch_named-Settled req_id params (Json.text name) =
      inl (tt, _, refl, dispatch_method-IsAnswer req_id params name (lookup name methods))
  dispatch_named-Settled req_id params (Json.array items) = inr (λ h. h, refl)
  dispatch_named-Settled req_id params (Json.object pairs) = inr (λ h. h, refl)

  dispatch-Settled : (r : Json) → Settled (IsRequest r) (id_of r) (dispatch sha256_hex r)
  unfolding dispatch
  dispatch-Settled (Json.object req) =
      dispatch_named-Settled (id_of (Json.object req))
        (get_member (Json.array Items.no_items) (codes "params") req)
        (get_member Json.null (codes "method") req)
  dispatch-Settled Json.null = inr (λ h. h, refl)
  dispatch-Settled (Json.boolean b) = inr (λ h. h, refl)
  dispatch-Settled (Json.integer n) = inr (λ h. h, refl)
  dispatch-Settled (Json.decimal t) = inr (λ h. h, refl)
  dispatch-Settled (Json.text t) = inr (λ h. h, refl)
  dispatch-Settled (Json.array items) = inr (λ h. h, refl)

  -- The outcome of a batch.
  abbrev BatchSettled : Items → Option Items → Type 0
  BatchSettled req r =
      (AllRequests req × (answers : Items) × (r ≡ some answers) × AllAnswered req answers)
      ⊎ ((¬ AllRequests req) × (r ≡ none))

  joined-BatchSettled :
      (r : Json) (req : Items) (first : Option Json) (rest : Option Items)
      → Settled (IsRequest r) (id_of r) first
      → BatchSettled req rest
      → BatchSettled (Items.item r req) (joined first rest)
  joined-BatchSettled r req first rest (inr (refused, e)) settled =
      rw e (inr (λ h. refused h.0, refl))
  joined-BatchSettled r req first rest (inl (is, a, e, answered)) (inr (refused, e')) =
      rw (e, e') (inr (λ h. refused h.1, refl))
  joined-BatchSettled r req first rest (inl (is, a, e, answered))
        (inl (all, answers, e', answered')) =
      rw (e, e') (inl ((is, all), Items.item a answers, refl, (answered, answered')))

  dispatch_all-BatchSettled : (req : Items) → BatchSettled req (dispatch_all sha256_hex req)
  unfolding dispatch_all
  dispatch_all-BatchSettled Items.no_items = inl (tt, Items.no_items, refl, tt)
  dispatch_all-BatchSettled (Items.item r req) =
      joined-BatchSettled r req (dispatch sha256_hex r) (dispatch_all sha256_hex req)
        (dispatch-Settled r) (dispatch_all-BatchSettled req)

  -- A batch of requests, each an object whose method, if any, is no list and no object, gets status 200
  -- and one answer for each, in their order: a result, or an error -32601 or -32000, under the request's
  -- id, 1 for a request without one. A single other element gives the whole batch status 400 and a
  -- parse error.
  pub do_post_batch :
      (req : Items)
      → (AllRequests req
          → (answers : Items) × (do_post sha256_hex (some (Json.array req))
              ≡ record { status = 200; body = Json.array answers })
            × AllAnswered req answers)
        × ((¬ AllRequests req) → do_post sha256_hex (some (Json.array req)) ≡ parse_error)
  unfolding do_post
  do_post_batch req = elim (dispatch_all-BatchSettled req) [
    | inl (all, answers, e, answered) ↦
        rw e ((λ h. (answers, refl, answered)), (λ h. absurd (h all)))
    | inr (refused, e) ↦ rw e ((λ all. absurd (refused all)), (λ h. refl))
  ]
