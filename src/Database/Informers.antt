-- ===== src/Database/Informers.antt =====
-- internal/database/informers/informers.go: how the informers of the desires list and watch their
-- specs tables. client-go's shared informer, whose store the listers read, is a parameter.
pub mod Tombstones
pub mod Readable
pub mod Mirrored
pub mod Stale
use rosa_hyperfleet_kube_app.Prelude.{
  ℕ, String, ◌≡◌, Bool, Option, none, some, List, [], ◌∷◌, if◌then◌else◌, ◌==◌, string_eq,
}
use rosa_hyperfleet_kube_app.Base.{Result, ok, err, ◌>>=◌, Io}
use rosa_hyperfleet_kube_app.Api.{
  Desire, ApplyDesire, ReadDesire, apply_desire, read_desire, get_document_id,
}
use rosa_hyperfleet_kube_app.Dynamo.Client.{Item}
use rosa_hyperfleet_kube_app.Dynamo.Watcher.{Options}
use rosa_hyperfleet_kube_app.Dynamo.Adapter.{Decoder, WatchEvent, modified, deleted}
use rosa_hyperfleet_kube_app.Database.RawExtension.{Json}
use rosa_hyperfleet_kube_app.Database.Items.{AttributeCodec, item_to_desire}
use rosa_hyperfleet_kube_app.Database.Client.{
  SpecReader, Access, KubeApplierDb, new_kube_applier_db, table_name, table_suffix_apply_desires,
  table_suffix_read_desires,
}
use rosa_hyperfleet_kube_app.Database.Listers.{
  RuntimeObject, desire, partial_object_metadata, Indexer, DesireLister, new_desire_lister,
}

-- ApplyDesireList and ReadDesireList.
pub record DesireList (T : Type 0) : Type 0 where
  pub resource_version : String
  pub items : List T

-- specReader.List(ctx), and the list with resource version "0".
unfoldable pub list_fn : {W T : Type 0} → SpecReader W T → Io W (Result (DesireList T))
list_fn spec_reader w =
    let (r, w') = spec_reader.list w in
    (do items ← r; ok (record { resource_version = "0"; items = items }), w')

-- ItemToApplyDesire and ItemToReadDesire, as functions into runtime.Object.
unfoldable pub decode_fn :
    {V T : Type 0} ⦃t : Desire T⦄ → Json V → AttributeCodec T → Item → Result (RuntimeObject T)
unfolding item_to_desire
decode_fn json codec item = do d ← item_to_desire json codec item; ok (desire d)

abbrev pub desire_decoder :
    {V T : Type 0} ⦃t : Desire T⦄ → Json V → AttributeCodec T → Decoder (RuntimeObject T)
desire_decoder json codec = record {
  decode = decode_fn json codec;
  partial_object_metadata = partial_object_metadata;
}

-- The ListWatch of newDesireInformer: what the informer lists with, and the arguments of NewWatchAdapter.
pub record ListWatch (W T : Type 0) : Type 0 where
  pub list_with_context : Io W (Result (DesireList T))
  pub watch_table : String
  pub watch_decoder : Decoder (RuntimeObject T)
  pub watch_options : Options

unfoldable pub new_desire_informer :
    {W T : Type 0}
    → String
    → Io W (Result (DesireList T))
    → Decoder (RuntimeObject T)
    → Options
    → ListWatch W T
new_desire_informer table list decoder options = record {
  list_with_context = list;
  watch_table = table;
  watch_decoder = decoder;
  watch_options = options;
}

pub record KubeApplierInformers (W : Type 0) : Type 0 where
  pub apply_desire_informer : ListWatch W ApplyDesire
  pub read_desire_informer : ListWatch W ReadDesire

-- NewKubeApplierInformersWithOptions. The handle that lists has one prefix and one client throughout.
unfoldable pub new_kube_applier_informers :
    {W V : Type 0} → Access W V → String → Options → KubeApplierInformers W
unfolding new_kube_applier_db
new_kube_applier_informers specs_client specs_prefix options =
    let db = new_kube_applier_db specs_client specs_client specs_prefix specs_prefix in
    record {
      apply_desire_informer =
          new_desire_informer (table_name specs_prefix table_suffix_apply_desires)
            (list_fn db.apply_desire_specs)
            (desire_decoder specs_client.json specs_client.apply_codec) options;
      read_desire_informer =
          new_desire_informer (table_name specs_prefix table_suffix_read_desires)
            (list_fn db.read_desire_specs)
            (desire_decoder specs_client.json specs_client.read_codec) options;
    }

-- The Name of GetObjectMeta, of both types; it has no namespace.
abbrev pub object_meta_name : {T : Type 0} ⦃t : Desire T⦄ → T → String
object_meta_name d = get_document_id d

-- client-go's shared informer, with its store: what a list, and an event of the watch, make of the
-- store.
pub record SharedInformer (S T : Type 0) : Type 0 where
  pub indexer : Indexer S T
  pub replace : S → List T → S
  pub handle : S → WatchEvent (RuntimeObject T) → S

-- Of entries with one key the last one counts.
abbrev pub object_in : {T : Type 0} ⦃t : Desire T⦄ → List T → String → Option T
object_in [] key = none
object_in (d ∷ ds) key = elim (object_in ds key) [
  | some later ↦ some later
  | none ↦ if object_meta_name d == key then some d else none
]

-- Its documented behaviour. The key of an object is its name, since a desire has no namespace. An object of another type than the informer's is skipped.
pub record IsSharedInformer {S T : Type 0} ⦃t : Desire T⦄ (i : SharedInformer S T) : Type 0 where
  pub object_at : S → String → Option T
  pub get_by_key-object_at :
      (s : S) (key : String)
      → i.indexer.get_by_key s key
        ≡ ok (elim (object_at s key) [ none ↦ none | some d ↦ some (desire d) ])
  pub object_at-replace :
      (s : S) (ds : List T) (key : String) → object_at (i.replace s ds) key ≡ object_in ds key
  pub object_at-modified :
      (s : S) (d : T) (key : String)
      → object_at (i.handle s (modified (desire d))) key
        ≡ (if object_meta_name d == key then some d else object_at s key)
  pub object_at-deleted :
      (s : S) (d : T) (key : String)
      → object_at (i.handle s (deleted (desire d))) key
        ≡ (if object_meta_name d == key then none else object_at s key)
  pub object_at-skipped :
      (s : S) (name key : String)
      → object_at (i.handle s (deleted (partial_object_metadata name))) key ≡ object_at s key

-- The informer takes the events from the channel in order.
abbrev pub handle_all :
    {S T : Type 0} → SharedInformer S T → S → List (WatchEvent (RuntimeObject T)) → S
handle_all i s [] = s
handle_all i s (event ∷ events) = handle_all i (i.handle s event) events

-- The lister that NewKubeApplierInformersWithOptions makes of the informer's indexer.
abbrev pub informer_lister : {S T : Type 0} → SharedInformer S T → DesireLister S T
informer_lister i = new_desire_lister i.indexer
