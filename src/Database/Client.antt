-- ===== src/Database/Client.antt =====
-- internal/database/client.go and types.go: the interfaces of the tables, and the handle that derives
-- the names of the four tables from two prefixes.
pub mod Contract
use rosa_hyperfleet_kube_app.Prelude.{ℕ, String, Option, List, [], ◌∷◌}
use rosa_hyperfleet_kube_app.Base.{GoError, concat, Result, Io}
use rosa_hyperfleet_kube_app.Api.{Desire, ApplyDesire, ReadDesire, apply_desire, read_desire}
use rosa_hyperfleet_kube_app.Dynamo.Client.{Client}
use rosa_hyperfleet_kube_app.Database.{Json, AttributeCodec}
use rosa_hyperfleet_kube_app.Database.Crud.{Backend, get, list, create, replace, delete}

pub record SpecReader (W T : Type 0) : Type 0 where
  pub get : String → Io W (Result T)
  pub list : Io W (Result (List T))

pub record ResourceCrud (W T : Type 0) : Type 0 where
  pub get : String → Io W (Result T)
  pub list : Io W (Result (List T))
  pub create : T → Io W (Result T)
  pub replace : T → Io W (Result T)
  pub delete : String → Io W (Option GoError)

-- The interface KubeApplierDBClient; Close does nothing.
pub record KubeApplierDb (W : Type 0) : Type 0 where
  pub apply_desire_specs : SpecReader W ApplyDesire
  pub read_desire_specs : SpecReader W ReadDesire
  pub apply_desire_status : ResourceCrud W ApplyDesire
  pub read_desire_status : ResourceCrud W ReadDesire

unfoldable pub dynamo_spec_reader :
    {W V T : Type 0} ⦃t : Desire T⦄ → Backend W V T → String → SpecReader W T
dynamo_spec_reader b table = record { get = get b table; list = list b table }

unfoldable pub dynamo_crud :
    {W V T : Type 0} ⦃t : Desire T⦄ → Backend W V T → String → ResourceCrud W T
dynamo_crud b table = record {
  get = get b table;
  list = list b table;
  create = create b table;
  replace = replace b table;
  delete = delete b table;
}

-- A DynamoDB client with the clock and the libraries that the access needs at the two types.
pub record Access (W V : Type 0) : Type 0 where
  pub client : Client W
  pub now : Io W ℕ
  pub json : Json V
  pub apply_codec : AttributeCodec ApplyDesire
  pub read_codec : AttributeCodec ReadDesire

abbrev pub apply_backend : {W V : Type 0} → Access W V → Backend W V ApplyDesire
apply_backend a = record { client = a.client; now = a.now; json = a.json; codec = a.apply_codec }

abbrev pub read_backend : {W V : Type 0} → Access W V → Backend W V ReadDesire
read_backend a = record { client = a.client; now = a.now; json = a.json; codec = a.read_codec }

abbrev pub table_suffix_apply_desires : String
table_suffix_apply_desires = "-applydesires"

abbrev pub table_suffix_read_desires : String
table_suffix_read_desires = "-readdesires"

abbrev pub table_name : String → String → String
table_name prefix suffix = concat (prefix ∷ suffix ∷ [])

unfoldable pub new_kube_applier_db :
    {W V : Type 0} → Access W V → Access W V → String → String → KubeApplierDb W
unfolding dynamo_spec_reader dynamo_crud
new_kube_applier_db specs status specs_prefix status_prefix = record {
  apply_desire_specs =
      dynamo_spec_reader (apply_backend specs) (table_name specs_prefix table_suffix_apply_desires);
  read_desire_specs =
      dynamo_spec_reader (read_backend specs) (table_name specs_prefix table_suffix_read_desires);
  apply_desire_status =
      dynamo_crud (apply_backend status) (table_name status_prefix table_suffix_apply_desires);
  read_desire_status =
      dynamo_crud (read_backend status) (table_name status_prefix table_suffix_read_desires);
}
