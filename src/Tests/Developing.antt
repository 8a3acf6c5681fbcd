-- ===== src/Tests/Developing.antt =====
-- The developers' tool on tables in memory.
use rosa_hyperfleet_kube_app.Prelude.{
  String, ◌≡◌, refl, none, Assoc, lookup, [], ◌∷◌, remove, string_eq, ◌==◌,
}
use rosa_hyperfleet_kube_app.Base.{ok, err, not_found, concat}
use rosa_hyperfleet_kube_app.Api.{ApplyDesire, apply_desire, zero_apply_desire}
use rosa_hyperfleet_kube_app.Database.Client.{ResourceCrud, KubeApplierDb}
use rosa_hyperfleet_kube_app.Database.Client.Contract.{IsResourceCrud}
use rosa_hyperfleet_kube_app.Desirectl.Desires.{spec_part}
use rosa_hyperfleet_kube_app.Desirectl.ResourceTypes.{
  ResourceInfo, Folding, resource_type_from_manifest,
}
use rosa_hyperfleet_kube_app.DesireTool.{DocIdFlags, resolve}
use rosa_hyperfleet_kube_app.DesireTool.Removing.{delete_command}
use rosa_hyperfleet_kube_app.DesireTool.Removing.Removed.{delete_command_removes}
use rosa_hyperfleet_kube_app.DesireTool.Reading.{Texts, list_apply}
use rosa_hyperfleet_kube_app.Tests.Kept.{kept_crud, kept_law}

-- The specs and the statuses.
abbrev World : Type 0
World = Assoc String ApplyDesire × Assoc String ApplyDesire

abbrev kept : ResourceCrud (Assoc String ApplyDesire) ApplyDesire
kept = kept_crud

abbrev specs : ResourceCrud World ApplyDesire
specs = record {
  get = λ id w. ((kept.get id w.0).0, w);
  list = λ w. ((kept.list w.0).0, w);
  create = λ d w. ((kept.create d w.0).0, ((kept.create d w.0).1, w.1));
  replace = λ d w. ((kept.replace d w.0).0, ((kept.replace d w.0).1, w.1));
  delete = λ id w. (none, (remove id w.0, w.1));
}

abbrev statuses : ResourceCrud World ApplyDesire
statuses = record {
  get = λ id w. ((kept.get id w.1).0, w);
  list = λ w. ((kept.list w.1).0, w);
  create = λ d w. ((kept.create d w.1).0, (w.0, (kept.create d w.1).1));
  replace = λ d w. ((kept.replace d w.1).0, (w.0, (kept.replace d w.1).1));
  delete = λ id w. (none, (w.0, remove id w.1));
}

abbrev law : IsResourceCrud kept spec_part
law = kept_law spec_part

abbrev specs_law : IsResourceCrud specs spec_part
specs_law = record {
  stored = λ w id. lookup id w.0;
  get-ok = λ id w d h. law.get-ok id w.0 d h;
  get-not_found = λ id w e h missing. law.get-not_found id w.0 e h missing;
  create-ok = λ d out w h. law.create-ok d out w.0 h;
  create-exists = λ d w e id h exists. law.create-exists d w.0 e id h exists;
  replace-ok = λ d out w h. law.replace-ok d out w.0 h;
  delete-none = λ id w h. law.delete-none id w.0 refl;
}

abbrev statuses_law : IsResourceCrud statuses spec_part
statuses_law = record {
  stored = λ w id. lookup id w.1;
  get-ok = λ id w d h. law.get-ok id w.1 d h;
  get-not_found = λ id w e h missing. law.get-not_found id w.1 e h missing;
  create-ok = λ d out w h. law.create-ok d out w.1 h;
  create-exists = λ d w e id h exists. law.create-exists d w.1 e id h exists;
  replace-ok = λ d out w h. law.replace-ok d out w.1 h;
  delete-none = λ id w h. law.delete-none id w.1 refl;
}

abbrev flags : DocIdFlags
flags = record {
  doc_id = "a";
  task_key = "";
  group = "";
  version = "";
  resource = "";
  namespace = "";
  resource_name = "";
}

abbrev start : World
start = (("a", zero_apply_desire) ∷ [], ("a", zero_apply_desire) ∷ [])

resolved : resolve (λ s. s) flags ≡ ok "a"
unfolding resolve
resolved = refl

delete_runs : (delete_command specs statuses "ApplyDesire" (λ s. s) flags start).0 ≡ none
unfolding delete_command resolve
delete_runs = refl

delete_command_removes_example :
    (lookup "a" (delete_command specs statuses "ApplyDesire" (λ s. s) flags start).1.0 ≡ none)
    × (lookup "a" (delete_command specs statuses "ApplyDesire" (λ s. s) flags start).1.1 ≡ none)
delete_command_removes_example =
    delete_command_removes specs statuses "ApplyDesire" spec_part specs_law statuses_law (λ s. s)
      flags "a" start (λ id w e failed. absurd (cc failed)) (λ id w e failed. absurd (cc failed))
      (λ id id' w. refl) resolved delete_runs

abbrev exact : Folding
exact = record { to_lower = λ s. s; equal_fold = λ a b. a == b }

abbrev jobs : ResourceInfo
jobs = record { group = "batch"; version = "v1"; resource = "jobs"; kind = "Job"; aliases = [] }

job_known : resource_type_from_manifest exact "batch/v1" "Job" ≡ ok jobs
unfolding resource_type_from_manifest
job_known = refl

-- Both tables of each prefix, without read desires.
abbrev db_over : ResourceCrud World ApplyDesire → KubeApplierDb World
db_over crud = record {
  apply_desire_specs = record { get = crud.get; list = crud.list };
  read_desire_specs = record { get = λ id w. (err not_found, w); list = λ w. (ok [], w) };
  apply_desire_status = crud;
  read_desire_status = record {
    get = λ id w. (err not_found, w);
    list = λ w. (ok [], w);
    create = λ d w. (ok d, w);
    replace = λ d w. (ok d, w);
    delete = λ id w. (none, w);
  };
}

abbrev texts : Texts
texts = record {
  show_time = λ t. "t";
  show_number = λ n. "n";
  marshal_indent = λ n s. ok s;
  spaces = λ n. "    ";
  columns = λ a b. concat (a ∷ " " ∷ b ∷ []);
}

-- The status is not there yet.
abbrev unread : World
unread = (("a", zero_apply_desire) ∷ [], [])

list_shows : (list_apply texts (db_over specs) unread).0.0 ≡ "No ApplyDesires found." ∷ []
unfolding list_apply concat
list_shows = refl
