-- ===== src/Relay/Chain.antt =====
-- Two relays, one behind the other: that of the control plane and that of the gateway.
use mathlib.Core.List.{append_assoc}
use cloudeagent.Prelude.{◌≡◌, refl, sym, ap, subst, ◌∙◌, true, false, List, [], ◌∷◌, ◌++◌, Text}
use cloudeagent.Relay.{Event, opened, relay}
use cloudeagent.Relay.Delivery.{
  Side, frame, gone, client_side, agent_side, delivered, relay_delivers,
}

-- All messages of a side.
abbrev pub frames : List Side → List Text
frames [] = []
frames (frame message success ∷ sides) = message ∷ frames sides
frames (gone ∷ sides) = frames sides

abbrev pub IsPrefix : List Text → List Text → Type 0
IsPrefix xs ys = (zs : List Text) × (xs ++ zs ≡ ys)

IsPrefix-trans : (xs ys zs : List Text) → IsPrefix xs ys → IsPrefix ys zs → IsPrefix xs zs
IsPrefix-trans xs ys zs (us, p) (vs, q) =
    (us ++ vs, sym (append_assoc xs us vs) ∙ ap (λ l. l ++ vs) p ∙ q)

delivered-IsPrefix : (sides : List Side) → IsPrefix (delivered sides) (frames sides)
delivered-IsPrefix [] = ([], refl)
delivered-IsPrefix (frame message true ∷ sides) =
    let (rest, p) = delivered-IsPrefix sides in (rest, ap (λ l. message ∷ l) p)
delivered-IsPrefix (frame message false ∷ sides) = (message ∷ frames sides, refl)
delivered-IsPrefix (gone ∷ sides) = (frames sides, refl)

module _ {S T : Type 0} (outer_touch : S → S) (inner_touch : T → T) where
  -- Where the network between the control plane and the gateway loses nothing but an end: the agent
  -- gets a beginning of what the client has sent, in its order and with nothing in between lost or
  -- twice, and the client gets a beginning of what the agent has sent.
  pub chain_delivers :
      (outer inner : List Event) (s : S) (t : T)
      → let near = (relay outer_touch outer (opened, s)).0 in
        let far = (relay inner_touch inner (opened, t)).0 in
        IsPrefix (frames (client_side inner)) near.to_agent
        → IsPrefix (frames (agent_side outer)) far.to_client
        → IsPrefix far.to_agent (frames (client_side outer))
          × IsPrefix near.to_client (frames (agent_side inner))
  chain_delivers outer inner s t there back =
      let near = (relay outer_touch outer (opened, s)).0 in
      let far = (relay inner_touch inner (opened, t)).0 in
      let (near_agent, near_client, near_over) = relay_delivers outer_touch outer s in
      let (far_agent, far_client, far_over) = relay_delivers inner_touch inner t in
      let passed = λ (sides : List Side) (sent : List Text) (h : sent ≡ delivered sides).
        subst (λ x. IsPrefix x (frames sides)) (sym h) (delivered-IsPrefix sides) in
      (
        IsPrefix-trans far.to_agent (frames (client_side inner)) (frames (client_side outer))
            (passed (client_side inner) far.to_agent far_agent)
            (IsPrefix-trans (frames (client_side inner)) near.to_agent (frames (client_side outer))
              there (passed (client_side outer) near.to_agent near_agent)),
        IsPrefix-trans near.to_client (frames (agent_side outer)) (frames (agent_side inner))
            (passed (agent_side outer) near.to_client near_client)
            (IsPrefix-trans (frames (agent_side outer)) far.to_client (frames (agent_side inner))
              back (passed (agent_side inner) far.to_client far_client)),
      )
