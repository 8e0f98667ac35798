-- ===== src/ConceptGraph/Figures.antt =====
-- The figures that the hops record are those that the checks read.
use sdw_lab_benchmarks.Prelude.{
  ◌≡◌, refl, arith, String, Bool, true, false, Option, none, some, List, ◌==◌, keys, insert,
  contains, contains-keys-insert, All, string_eq, eq_iff,
}
use sdw_lab_benchmarks.ConceptGraph.Scaffold.{Figure, Recon, Build, record_figure}
use sdw_lab_benchmarks.ConceptGraph.FieldHop.{Bridge, hop1_fields}
use sdw_lab_benchmarks.ConceptGraph.EventHop.{hop2_ocsf_d3fend, hop2b_event_artifact}
use sdw_lab_benchmarks.ConceptGraph.WallHop.{Attacks, hop34_artifacts, hop4_inferred_matrix}
use sdw_lab_benchmarks.ConceptGraph.MitigationHop.{hop4prime_curated}
use sdw_lab_benchmarks.ConceptGraph.SkosHop.{hop5_skos}
use sdw_lab_benchmarks.ConceptGraph.ScfHop.{ScfFile, record_reach, hop5prime_scf}
use sdw_lab_benchmarks.ConceptGraph.Reconcile.{spine_checks, scf_checks, record_totals}
use sdw_lab_benchmarks.ConceptGraph.Main.{Sources, run_hops, empty_build}

unfoldable pub has_figure : Recon → String → Bool
has_figure recon name = contains (keys recon) name

recorded : (name : String) (f : Figure) (r : Recon) → has_figure (insert name f r) name ≡ true
unfolding has_figure
recorded name f r = ground (arith, contains-keys-insert name name f r, eq_iff name name)

still_recorded :
    (name : String) (f : Figure) (r : Recon) (other : String)
    → has_figure r other ≡ true
    → has_figure (insert name f r) other ≡ true
unfolding has_figure
still_recorded name f r other h = ground (arith, contains-keys-insert name other f r)

ruleset recording = (recorded, still_recorded)

-- Every figure of the list is recorded.
abbrev pub HasAll : Recon → List String → Type 0
HasAll r ns = All (λ n. has_figure r n ≡ true) ns

-- What is recorded without the SCF layer stays recorded with it and under the totals.
pub spine_recorded : (src : Sources) (b : Build) → HasAll (run_hops src false b).recon spine_checks
unfolding run_hops hop2_ocsf_d3fend hop2b_event_artifact hop34_artifacts hop4_inferred_matrix
    hop4prime_curated hop5_skos record_figure
spine_recorded src b = search recording depth 30

pub run_hops_scf :
    (src : Sources) (b : Build)
    → (atks : Attacks) × (run_hops src true b
        ≡ hop5prime_scf src.scf_sankey atks (run_hops src false b))
unfolding run_hops
run_hops_scf src b = (_, refl)

pub hop5prime_scf_records :
    (file : Option ScfFile) (atks : Attacks) (b : Build) (n : String)
    → has_figure b.recon n ≡ true
    → has_figure (hop5prime_scf file atks b).recon n ≡ true
unfolding hop5prime_scf record_reach record_figure
hop5prime_scf_records none atks b n h = search recording depth 8
hop5prime_scf_records (some file) atks b n h = search recording depth 10

pub scf_recorded :
    (file : ScfFile) (atks : Attacks) (b : Build)
    → HasAll (hop5prime_scf (some file) atks b).recon scf_checks
unfolding hop5prime_scf record_reach record_figure
scf_recorded file atks b = search recording depth 20

pub totals_record :
    (b : Build) (n : String)
    → has_figure b.recon n ≡ true
    → has_figure (record_totals b).recon n ≡ true
unfolding record_totals record_figure
totals_record b n h = search recording depth 8

-- `recon` has no entry of the name.
not_recorded :
    (name : String) (f : Figure) (r : Recon) (other : String)
    → other == name ≡ false
    → has_figure r other ≡ false
    → has_figure (insert name f r) other ≡ false
unfolding has_figure
not_recorded name f r other differs h = ground (arith, contains-keys-insert name other f r)

hop1_lacks :
    (file : Option Bridge)
    → has_figure (hop1_fields file empty_build).recon "scf_controls_attack" ≡ false
unfolding hop1_fields record_figure has_figure contains insert
hop1_lacks none = refl
hop1_lacks (some file) = refl

-- Where the SCF layer is asked for and its file is missing, its first figure is not there.
pub lacks_scf :
    (src : Sources)
    → src.scf_sankey ≡ none
    → has_figure (record_totals (run_hops src true empty_build)).recon "scf_controls_attack" ≡ false
unfolding run_hops hop2_ocsf_d3fend hop2b_event_artifact hop34_artifacts hop4_inferred_matrix
    hop4prime_curated hop5_skos hop5prime_scf record_totals record_figure
lacks_scf src missing = rw (missing) (search (not_recorded, hop1_lacks src.cim_bridge) depth 40)
