-- ===== src/Engine/Acp/Permission.antt =====
-- `handlePermissionRequest` and `dispatch` of cloud-backend/pkg/agentengine/qwenpaw/acp.go.
use cloudeagent.Prelude.{
  ℕ, ◌≡◌, ◌≢◌, refl, ◌⊎◌, inl, inr, Bool, true, false, ◌&&◌, not, Option, none, some, List, [], ◌∷◌,
  Text, codes, lookup, text_eq, text_eq_iff, arith, if◌then◌else◌, Bool-cases,
}
use cloudeagent.Engine.Json.{
  Json, null, str, Items, nil, cons, Fields, no_fields, field, get, as_text, as_fields, as_items,
  fields_or_none, param_string,
}
use cloudeagent.Engine.Acp.{Acp, Printing, RpcMessage, deliver, write_locked}

pub record PermissionOption : Type 0 where
  pub option_id : Text
  pub name : Text
  pub kind : Text

pub record PermissionRequest : Type 0 where
  pub session_id : Text
  pub tool_call : Option Fields
  pub options : List PermissionOption

abbrev option_of : Fields → PermissionOption
option_of om = record {
  option_id = param_string om (codes "optionId");
  name = param_string om (codes "name");
  kind = param_string om (codes "kind");
}

abbrev option_onto : Option Fields → List PermissionOption → List PermissionOption
option_onto none options = options
option_onto (some om) options = option_of om ∷ options

-- The options that are objects.
pub options_of : Items → List PermissionOption
options_of nil = []
options_of (cons x xs) = option_onto (as_fields x) (options_of xs)

pub permission_request : Fields → PermissionRequest
unfolding options_of
permission_request params = record {
  session_id = param_string params (codes "sessionId");
  tool_call = as_fields (get (codes "toolCall") params);
  options = options_of (as_items (get (codes "options") params));
}

-- `opt != "" && opt != "deny" && opt != "reject_once"`
abbrev pub is_grant : Text → Bool
is_grant opt =
    not (text_eq opt [])
    && (not (text_eq opt (codes "deny")) && not (text_eq opt (codes "reject_once")))

abbrev pub refusal : Fields
refusal = field (codes "outcome") (str (codes "cancelled")) no_fields

abbrev pub selection : Text → Fields
selection opt =
    field (codes "outcome") (str (codes "selected")) (field (codes "optionId") (str opt) no_fields)

-- The result that is sent, by the policy, if there is one.
pub permission_result : Option (PermissionRequest → Text) → PermissionRequest → Fields
permission_result none req = refusal
permission_result (some policy) req =
    if is_grant (policy req) then selection (policy req) else refusal

-- The message that answers a request for a permission.
pub permission_reply : Option (PermissionRequest → Text) → RpcMessage → RpcMessage
unfolding permission_request permission_result
permission_reply policy msg = record {
  id = msg.id;
  method = [];
  params = none;
  result = some (permission_result policy (permission_request (fields_or_none msg.params)));
  error = none;
}

-- What a message from the process sets off beside the change of the state.
pub data Effect : Type 0 where
  nothing : Effect
  replies : RpcMessage → Effect
  handles : ℕ → Fields → Effect
  observes : Text → Fields → Effect

abbrev update_effect : Option ℕ → Bool → Text → Fields → Effect
update_effect (some h) observed sid update = handles h update
update_effect none true sid update = observes sid update
update_effect none false sid update = nothing

-- An update, for the handler of its session, or else for the observer, if there is one.
pub update_of : Bool → Fields → Acp → Effect
update_of observed params a = elim (as_fields (get (codes "update") params)) [
  | none ↦ nothing
  | some update ↦
      let sid = as_text (get (codes "sessionId") params) in
      update_effect (lookup sid a.handlers) observed sid update
]

abbrev pub has_id : Json → Bool
has_id null = false
has_id _ = true

-- `dispatch`; whether the pipe takes the answer to a request for a permission is given.
module _ (sprint : Printing) (policy : Option (PermissionRequest → Text)) (observed : Bool) where
  unfoldable pub dispatch : Bool → RpcMessage → Acp → Effect × Acp
  unfolding permission_reply update_of
  dispatch wrote msg a =
      if text_eq msg.method (codes "session/request_permission")
      then (replies (permission_reply policy msg), (write_locked wrote a).1)
      else if has_id msg.id
      then (nothing, deliver sprint msg a)
      else if text_eq msg.method (codes "session/update")
      then (update_of observed (fields_or_none msg.params) a, a)
      else (nothing, a)

-- An answer to a request for a permission goes back under the request's id, and it grants something
-- only if the policy chose an option that is not empty and neither `deny` nor `reject_once`: then it
-- selects that option. In every other case, with no policy too, it is a refusal.
pub permission_reply_grants :
    (policy : Option (PermissionRequest → Text)) (msg : RpcMessage)
    → let req = permission_request (fields_or_none msg.params) in
      let reply = permission_reply policy msg in
      (reply.id ≡ msg.id)
      × ((reply.result ≡ some refusal)
          ⊎ ((choose : PermissionRequest → Text) × (policy ≡ some choose)
              × (reply.result ≡ some (selection (choose req)))
              × (choose req ≢ [])
              × (choose req ≢ codes "deny")
              × (choose req ≢ codes "reject_once")))
unfolding permission_reply permission_result
permission_reply_grants none msg = (refl, inl refl)
permission_reply_grants (some choose) msg =
    let req = permission_request (fields_or_none msg.params) in
    let opt = choose req in
    (
      refl,
      elim (Bool-cases (is_grant opt)) [
        | inr e ↦ inl (rw e refl)
        | inl e ↦ inr (
          choose,
          refl,
          rw e refl,
          ground (arith, text_eq_iff opt []),
          ground (arith, text_eq_iff opt (codes "deny")),
          ground (arith, text_eq_iff opt (codes "reject_once")),
        )
      ],
    )
