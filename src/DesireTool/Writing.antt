-- ===== src/DesireTool/Writing.antt =====
-- The create and update commands of cmd/desire-tool/main.go. What they print is left out; files are
-- texts.
use rosa_hyperfleet_kube_app.Prelude.{String, Option, none, some, [], ◌∷◌}
use rosa_hyperfleet_kube_app.Base.{GoError, wrap, wrapping, concat, Result, ok, err, ◌>>=◌, Io}
use rosa_hyperfleet_kube_app.Api.{
  ApplyDesire, ApplyDesireSpec, ReadDesire, ResourceReference, apply_desire_type_delete,
  set_spec_kube_content, zero_apply_desire, zero_read_desire,
}
use rosa_hyperfleet_kube_app.Database.Client.{ResourceCrud}
use rosa_hyperfleet_kube_app.Desirectl.Desires.{Libraries, new_document_id}
use rosa_hyperfleet_kube_app.DesireTool.{DocIdFlags, resolve, manifest_resource}

-- The flags of the create commands.
pub record CreateFlags : Type 0 where
  pub task_key : String
  pub cluster_id : String
  pub node_pool : String

abbrev pub created_spec :
    CreateFlags → String → ResourceReference → ApplyDesireSpec → ApplyDesireSpec
created_spec f type ref spec = record spec {
  management_cluster = "dev-local";
  cluster_id = f.cluster_id;
  node_pool_name = f.node_pool;
  type = type;
  target_item = ref;
}

abbrev pub tool_apply_desire : CreateFlags → String → ResourceReference → String → ApplyDesire
tool_apply_desire f doc_id ref raw = record zero_apply_desire {
  metadata = record zero_apply_desire.metadata { document_id = doc_id };
  spec = record (created_spec f "" ref zero_apply_desire.spec) {
    server_side_apply = some (record { kube_content = some (record { raw = raw }) });
  };
}

abbrev pub tool_delete_desire : CreateFlags → String → ResourceReference → ApplyDesire
tool_delete_desire f doc_id ref = record zero_apply_desire {
  metadata = record zero_apply_desire.metadata { document_id = doc_id };
  spec = created_spec f apply_desire_type_delete ref zero_apply_desire.spec;
}

abbrev pub tool_read_desire : CreateFlags → String → ResourceReference → ReadDesire
tool_read_desire f doc_id ref = record zero_read_desire {
  metadata = record zero_read_desire.metadata { document_id = doc_id };
  spec = record {
    management_cluster = "dev-local";
    cluster_id = f.cluster_id;
    node_pool_name = f.node_pool;
    target_item = ref;
  };
}

-- A result as an error with a text.
abbrev error_as : {T : Type 0} → String → Result T → Option GoError
error_as s (ok out) = none
error_as s (err e) = some (wrap s e)

-- What follows an error that ends the command, and what follows a value.
abbrev and_then : {W T : Type 0} → Result T → W → (T → Io W (Option GoError)) → Option GoError × W
and_then (err e) w next = (some e, w)
and_then (ok a) w next = next a w

module _ {W J : Type 0} (lib : Libraries J) (split_slash : String → Option (String × String))
    (to_lower_first : String → String) (applies : ResourceCrud W ApplyDesire)
    (reads : ResourceCrud W ReadDesire) where
  -- The manifest's JSON and the resource that it names.
  abbrev read_manifest : String → Result (String × ResourceReference)
  read_manifest file = do
    raw ← wrapping "converting manifest to JSON" (lib.yaml_to_json file)
    ref ← wrapping "parsing manifest" (manifest_resource lib split_slash to_lower_first raw)
    ok (raw, ref)

  unfoldable pub create_apply : CreateFlags → String → Io W (Option GoError)
  unfolding manifest_resource new_document_id
  create_apply f file w = and_then (read_manifest file) w (λ m w'.
      let (out, w'') =
        applies.create (tool_apply_desire f (new_document_id lib.new_sha1 f.task_key m.1) m.1 m.0)
          w' in
      (error_as "creating ApplyDesire" out, w''))

  unfoldable pub create_delete : CreateFlags → ResourceReference → Io W (Option GoError)
  unfolding new_document_id
  create_delete f ref w =
      let (out, w') =
        applies.create (tool_delete_desire f (new_document_id lib.new_sha1 f.task_key ref) ref) w in
      (error_as "creating ApplyDesire (Delete)" out, w')

  unfoldable pub create_read : CreateFlags → ResourceReference → Io W (Option GoError)
  unfolding new_document_id
  create_read f ref w =
      let (out, w') =
        reads.create (tool_read_desire f (new_document_id lib.new_sha1 f.task_key ref) ref) w in
      (error_as "creating ReadDesire" out, w')

  abbrev updated_apply : ApplyDesire → String × ResourceReference → ApplyDesire
  updated_apply existing m =
      let d = set_spec_kube_content existing (some (record { raw = m.0 })) in
      record d { spec = record d.spec { target_item = m.1 } }

  unfoldable pub update_apply : DocIdFlags → String → Io W (Option GoError)
  unfolding resolve manifest_resource
  update_apply f file w = and_then (resolve lib.new_sha1 f) w (λ doc_id w.
      let (r, w') = applies.get doc_id w in
      and_then (wrapping (concat ("getting ApplyDesire " ∷ doc_id ∷ [])) r) w' (λ existing w'.
        and_then (read_manifest file) w' (λ m w'.
          let (out, w'') = applies.replace (updated_apply existing m) w' in
          (error_as "updating ApplyDesire" out, w''))))

  unfoldable pub update_read : DocIdFlags → ResourceReference → Io W (Option GoError)
  unfolding resolve
  update_read f new_target w = and_then (resolve lib.new_sha1 f) w (λ doc_id w.
      let (r, w') = reads.get doc_id w in
      and_then (wrapping (concat ("getting ReadDesire " ∷ doc_id ∷ [])) r) w' (λ existing w'.
        let (out, w'') =
          reads.replace
            (record existing { spec = record existing.spec { target_item = new_target } }) w' in
        (error_as "updating ReadDesire" out, w'')))
