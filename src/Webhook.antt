-- ===== src/Webhook.antt =====
-- internal/webhook/node_validator.go: which updates by the service accounts of nodes are admitted.
-- Requests come decoded; the JSON library is the outside.
pub mod Admits
use nodemanager.Common.{Bool, Dict, Error, Option, Result, String, [], err, false}
use nodemanager.Common.{if◌then◌else◌, len, lookup, none, not, ok, quote, slice, some, sprint}
use nodemanager.Common.{starts_with, true, wrap, ◌&&◌, ◌==◌, ◌∷◌, ◌≡◌, ◌⊎◌}

pub data Operation : Type 0 where
  create update delete connect : Operation

-- The part of an `admission.Request` that the validator reads.
pub record Request : Type 0 where
  pub operation : Operation
  pub username : String
  pub resource : String
  pub name : String
  pub object : String
  pub old_object : String

pub data Response : Type 0 where
  allowed : Response
  denied : String → Response
  errored : Error → Response

-- encoding/json: the fields of an object as raw texts, the compact form of a value, and the
-- `spec.nodeName` of a jail.
pub record Json : Type 0 where
  pub fields : String → Result (Dict String)
  pub compact : String → Result String
  pub node_name : String → Result String

abbrev pub node_service_account_prefix : String
node_service_account_prefix = "system:serviceaccount:nodemanager:nodemanager-"

unfoldable pub node_hostname : String → String
node_hostname username =
    if not (starts_with username node_service_account_prefix)
    then ""
    else slice username (len node_service_account_prefix) (len username)

abbrev pub is_update : Operation → Bool
is_update update = true
is_update _ = false

abbrev same_text : Result String → Result String → Bool
same_text (ok a) (ok b) = a == b
same_text (err e) b = false
same_text (ok a) (err e) = false

module _ (json : Json) where
  unfoldable pub json_equal : Option String → Option String → Bool
  json_equal none none = true
  json_equal none (some b) = false
  json_equal (some a) none = false
  json_equal (some a) (some b) = same_text (json.compact a) (json.compact b)

  abbrev pub extracted :
      Result (Dict String) → Result (Dict String) → Result (Option String × Option String)
  extracted (err e) old = err (wrap "unmarshalling new object" e)
  extracted (ok new) (err e) = err (wrap "unmarshalling old object" e)
  extracted (ok new) (ok old) = ok (lookup "spec" old, lookup "spec" new)

  -- The old and the new spec.
  unfoldable pub extract_specs : Request → Result (Option String × Option String)
  extract_specs req = extracted (json.fields req.object) (json.fields req.old_object)

  abbrev pub check_managed_node : Request → String → Response
  check_managed_node req hostname =
      if (req.resource == "managednodes") && not (req.name == hostname)
      then denied (
          sprint
            ("node SA " ∷ quote req.username ∷ " cannot modify ManagedNode " ∷ quote req.name ∷ []))
      else allowed

  abbrev pub check_jail : Request → String → Result String → Response
  check_jail req hostname (err e) = errored (wrap "reading jail spec.nodeName" e)
  check_jail req hostname (ok owner) =
      if not (owner == "") && not (owner == hostname)
      then denied (
          sprint (
            "node SA "
            ∷ quote req.username
            ∷ " cannot modify jail assigned to "
            ∷ quote owner
            ∷ []))
      else check_managed_node req hostname

  abbrev pub check_specs : Request → String → Result (Option String × Option String) → Response
  check_specs req hostname (err e) = errored (wrap "decoding objects" e)
  check_specs req hostname (ok (old, new)) =
      if not (json_equal old new)
      then denied
          (sprint ("node SA " ∷ quote req.username ∷ " is not permitted to modify .spec" ∷ []))
      else if req.resource == "jails"
      then check_jail req hostname (json.node_name req.object)
      else check_managed_node req hostname

  unfoldable pub handle : Request → Response
  handle req =
      if not (is_update req.operation)
      then allowed
      else if node_hostname req.username == ""
      then allowed
      else check_specs req (node_hostname req.username) (extract_specs req)

  -- The specs were decoded and are equal, a jail belongs to nobody or to the host, and a
  -- ManagedNode is the host's own.
  pub record IsOwnUpdate (req : Request) (hostname : String) : Type 0 where
    pub same_spec :
        (old : Option String) × (new : Option String) × (extract_specs req ≡ ok (old, new))
        × (json_equal old new ≡ true)
    pub own_jail :
        req.resource ≡ "jails"
        → (owner : String) × (json.node_name req.object ≡ ok owner)
          × ((owner ≡ "") ⊎ (owner ≡ hostname))
    pub own_node : req.resource ≡ "managednodes" → req.name ≡ hostname
