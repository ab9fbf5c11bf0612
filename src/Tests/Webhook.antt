-- ===== src/Tests/Webhook.antt =====
-- A node that updates the status of its own ManagedNode.
use nodemanager.Common.{[], lookup, ne_of_test, ok, refl, sym, ◌∙◌, ◌∷◌, ◌≡◌, ◌≢◌}
use nodemanager.Webhook.{
  IsOwnUpdate, Json, Request, allowed, extract_specs, handle, json_equal, node_hostname, update,
}
use nodemanager.Webhook.Admits.{admitted_update-IsOwnUpdate}

abbrev json : Json
json = record {
  fields = λ text. ok (("spec", "{}") ∷ []);
  compact = λ text. ok text;
  node_name = λ text. ok "";
}

abbrev own : Request
own = record {
  operation = update;
  username = "system:serviceaccount:nodemanager:nodemanager-n1";
  resource = "managednodes";
  name = "n1";
  object = "new";
  old_object = "old";
}

host : node_hostname own.username ≡ "n1"
unfolding node_hostname
host = refl

named : node_hostname own.username ≢ ""
named p = ne_of_test "n1" "" refl (sym host ∙ p)

admitted : handle json own ≡ allowed
unfolding handle node_hostname json_equal extract_specs lookup
admitted = refl

admitted_update-IsOwnUpdate_example : IsOwnUpdate json own (node_hostname own.username)
admitted_update-IsOwnUpdate_example = admitted_update-IsOwnUpdate json own refl named admitted
