-- ===== src/Webhook/Admits.antt =====
-- What an update by a node's service account does not change if it is admitted.
use nodemanager.Common.{Bool-cases, Option, Result, String, arith, eq_iff, err, if◌then◌else◌}
use nodemanager.Common.{inl, inr, ne_of_test, not, ok, refl, ◌==◌, ◌≡◌, ◌≢◌, ◌⊎◌}
use nodemanager.Webhook.{
  IsOwnUpdate, Json, Operation, Request, Response, allowed, check_jail, check_managed_node,
  check_specs, connect, create, delete, extract_specs, handle, is_update, json_equal, node_hostname,
  update,
}

module _ (json : Json) (req : Request) (hostname : String) where
  managed_node_own :
      check_managed_node json req hostname ≡ allowed
      → req.resource ≡ "managednodes"
      → req.name ≡ hostname
  managed_node_own admitted is =
      ground (arith, eq_iff req.resource "managednodes", eq_iff req.name hostname)

  jail_own :
      (owner : Result String)
      → check_jail json req hostname owner ≡ allowed
      → (check_managed_node json req hostname ≡ allowed)
        × ((host : String) × (owner ≡ ok host) × ((host ≡ "") ⊎ (host ≡ hostname)))
  jail_own (err e) admitted = cc
  jail_own (ok owner) admitted = elim (Bool-cases (owner == "")) [
    | inl nobody ↦ (rw nobody at admitted, (owner, refl, inl ((eq_iff owner "").0 nobody)))
    | inr somebody ↦ elim (Bool-cases (owner == hostname)) [
      | inl own ↦
          (rw (somebody, own) at admitted, (owner, refl, inr ((eq_iff owner hostname).0 own)))
      | inr foreign ↦ cc (rw (somebody, foreign) at admitted)
    ]
  ]

  specs_own :
      (specs : Result (Option String × Option String))
      → extract_specs json req ≡ specs
      → check_specs json req hostname specs ≡ allowed
      → IsOwnUpdate json req hostname
  specs_own (err e) read admitted = cc
  specs_own (ok (old, new)) read admitted = elim (Bool-cases (json_equal json old new)) [
    | inr differ ↦ cc (rw differ at admitted)
    | inl same ↦ elim (Bool-cases (req.resource == "jails")) [
      | inl jail ↦
          let (rest, owned) = jail_own (json.node_name req.object) (rw (same, jail) at admitted) in
          record {
            same_spec = (old, new, read, same);
            own_jail = λ is. owned;
            own_node = managed_node_own rest;
          }
      | inr other' ↦ record {
        same_spec = (old, new, read, same);
        own_jail = λ is. elim (ne_of_test req.resource "jails" other' is) [ ];
        own_node = managed_node_own (rw (same, other') at admitted);
      }
    ]
  ]

past_guards :
    (operation : Operation) (hostname : String) (checked : Response)
    → operation ≡ update
    → hostname ≢ ""
    → (if not (is_update operation) then allowed else if hostname == "" then allowed else checked)
      ≡ allowed
    → checked ≡ allowed
past_guards update hostname checked is named admitted = ground (arith, eq_iff hostname "")
past_guards create hostname checked is named admitted = cc
past_guards delete hostname checked is named admitted = cc
past_guards connect hostname checked is named admitted = cc

-- If an update by the service account of a node with a name is admitted, then the specs were
-- decoded and are equal, a jail belongs to nobody or to the node, and a ManagedNode is its own.
pub admitted_update-IsOwnUpdate :
    (json : Json) (req : Request)
    → req.operation ≡ update
    → node_hostname req.username ≢ ""
    → handle json req ≡ allowed
    → IsOwnUpdate json req (node_hostname req.username)
unfolding handle
admitted_update-IsOwnUpdate json req is named admitted =
    let host : String = node_hostname req.username in
    let specs : Result (Option String × Option String) = extract_specs json req in
    specs_own json req host specs refl
      (past_guards req.operation host (check_specs json req host specs) is named admitted)
