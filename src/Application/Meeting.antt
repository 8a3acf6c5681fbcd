-- ===== src/Application/Meeting.antt =====
-- The command line tool and the kube-applier use the same tables.
use rosa_hyperfleet_kube_app.Prelude.{◌≡◌, refl, string_eq}
use rosa_hyperfleet_kube_app.Database.Client.{Access, new_kube_applier_db}
use rosa_hyperfleet_kube_app.Desirectl.Config.{
  Context, effective_specs_prefix, effective_status_prefix,
}
use rosa_hyperfleet_kube_app.Desirectl.Desires.{new_client_pair}
use rosa_hyperfleet_kube_app.Application.{
  KubeApplierRootCmdFlags, options_db, flags_specs_prefix, flags_status_prefix,
}

same_specs_prefix :
    (f : KubeApplierRootCmdFlags) (c : Context)
    → f.management_cluster ≡ c.management_cluster
    → f.specs_table_prefix ≡ c.specs_table_prefix
    → flags_specs_prefix f ≡ effective_specs_prefix c
unfolding effective_specs_prefix
same_specs_prefix f c cluster prefix = rw (cluster, prefix) refl

same_status_prefix :
    (f : KubeApplierRootCmdFlags) (c : Context)
    → f.management_cluster ≡ c.management_cluster
    → f.status_table_prefix ≡ c.status_table_prefix
    → flags_status_prefix f ≡ effective_status_prefix c
unfolding effective_status_prefix
same_status_prefix f c cluster prefix = rw (cluster, prefix) refl

-- If the kube-applier's flags and the tool's context name one management cluster and the same table
-- prefixes, given or left empty, then over one client the tool's four tables are the kube-applier's:
-- where the tool writes apply and read desires, the kube-applier reads its specs, and where the
-- tool waits for a status, the kube-applier writes it.
pub options_db-new_client_pair :
    {W V : Type 0} (a : Access W V) (f : KubeApplierRootCmdFlags) (c : Context)
    → f.management_cluster ≡ c.management_cluster
    → f.specs_table_prefix ≡ c.specs_table_prefix
    → f.status_table_prefix ≡ c.status_table_prefix
    → ((new_client_pair a c).specs_db.apply_desire_status.get
        ≡ (options_db a a f).apply_desire_specs.get)
      × ((new_client_pair a c).specs_db.read_desire_status.get
          ≡ (options_db a a f).read_desire_specs.get)
      × ((new_client_pair a c).status_db.apply_desire_status
          ≡ (options_db a a f).apply_desire_status)
      × ((new_client_pair a c).status_db.read_desire_status ≡ (options_db a a f).read_desire_status)
unfolding new_client_pair options_db new_kube_applier_db
options_db-new_client_pair a f c cluster specs status =
    rw (same_specs_prefix f c cluster specs, same_status_prefix f c cluster status)
      (refl, refl, refl, refl)
