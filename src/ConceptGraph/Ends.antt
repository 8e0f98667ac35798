-- ===== src/ConceptGraph/Ends.antt =====
-- Whether the checks of a run find the figures that they read, and how a run ends.
use sdw_lab_benchmarks.Prelude.{
  ◌≡◌, ◌↔◌, inl, inr, refl, arith, String, Bool, true, false, ◌&&◌, Option, none, some, List, [],
  ◌∷◌, ◌++◌, subst, sym, keys, lookup, contains, lookup-eq-none_iff, All, All-map, string_eq,
  Option-cases,
}
use sdw_lab_benchmarks.Prelude.Results.{ok, raise}
use sdw_lab_benchmarks.ConceptGraph.Scaffold.{number, Recon, Build}
use sdw_lab_benchmarks.ConceptGraph.ScfHop.{ScfFile, hop5prime_scf}
use sdw_lab_benchmarks.ConceptGraph.Reconcile.{
  Check, Error, key_error, expect, spine_checks, scf_checks, chk, figure_check, figure_checks,
  record_totals, graph_checks, leaf_checks, reconcile,
}
use sdw_lab_benchmarks.ConceptGraph.Main.{Sources, Exit, run_hops, empty_build, exit_of, main}
use sdw_lab_benchmarks.ConceptGraph.Figures.{
  has_figure, HasAll, spine_recorded, run_hops_scf, hop5prime_scf_records, scf_recorded,
  totals_record, lacks_scf,
}

figure_check_returns :
    (r : Recon) (name : String)
    → has_figure r name ≡ true
    → contains (keys expect) name ≡ true
    → (c : Check) × (figure_check r name ≡ ok c)
unfolding figure_check has_figure
figure_check_returns r name h known = elim (Option-cases (lookup name r)) [
  | inl missing ↦ absurd (ground (arith, lookup-eq-none_iff name r))
  | inr (got, found) ↦ elim (Option-cases (lookup name expect)) [
    | inl missing ↦ absurd (ground (arith, lookup-eq-none_iff name expect))
    | inr (n, listed) ↦ (chk name (some got) (number n) true, rw (found, listed) refl)
  ]
]

figure_checks_return :
    (r : Recon) (ns : List String)
    → HasAll r ns
    → All (λ n. contains (keys expect) n ≡ true) ns
    → (cs : List Check) × (figure_checks r ns ≡ ok cs)
unfolding figure_checks
figure_checks_return r [] h known = ([], refl)
figure_checks_return r (n ∷ ns) h known =
    let (c, e) = figure_check_returns r n h.0 known.0 in
    let (cs, es) = figure_checks_return r ns h.1 known.1 in (c ∷ cs, rw (e, es) refl)

spine_known : All (λ n. contains (keys expect) n ≡ true) spine_checks
unfolding contains
spine_known = (refl, (refl, (refl, (refl, (refl, (refl, (refl, (refl, (refl, tt)))))))))

scf_known : All (λ n. contains (keys expect) n ≡ true) scf_checks
unfolding contains
scf_known = (refl, (refl, (refl, (refl, (refl, tt)))))

-- `reconcile` returns where the figures that it reads are recorded.
returns_plain :
    (b : Build)
    → HasAll (record_totals b).recon spine_checks
    → (cs : List Check) × (reconcile false b ≡ ok cs)
unfolding reconcile figure_checks
returns_plain b spine =
    let (cs, e) = figure_checks_return (record_totals b).recon spine_checks spine spine_known in
    (graph_checks b.scg ++ cs ++ leaf_checks (record_totals b).recon ++ [], rw (e) refl)

returns_scf :
    (b : Build)
    → HasAll (record_totals b).recon spine_checks
    → HasAll (record_totals b).recon scf_checks
    → (cs : List Check) × (reconcile true b ≡ ok cs)
unfolding reconcile
returns_scf b spine scf =
    let (cs, e) = figure_checks_return (record_totals b).recon spine_checks spine spine_known in
    let (ds, d) = figure_checks_return (record_totals b).recon scf_checks scf scf_known in
    (graph_checks b.scg ++ cs ++ leaf_checks (record_totals b).recon ++ ds, rw (e, d) refl)

raises_scf :
    (b : Build)
    → HasAll (record_totals b).recon spine_checks
    → has_figure (record_totals b).recon "scf_controls_attack" ≡ false
    → reconcile true b ≡ raise (key_error "scf_controls_attack")
unfolding reconcile figure_checks figure_check has_figure
raises_scf b spine lacks =
    let (cs, e) = figure_checks_return (record_totals b).recon spine_checks spine spine_known in
    let none_there = (lookup-eq-none_iff "scf_controls_attack" (record_totals b).recon).1 lacks in
    rw (e, none_there) refl

all_still :
    (r r' : Recon) (ns : List String)
    → ((n : String) → has_figure r n ≡ true → has_figure r' n ≡ true)
    → HasAll r ns
    → HasAll r' ns
all_still r r' ns h all =
    All-map (λ n. has_figure r n ≡ true) (λ n. has_figure r' n ≡ true) h ns all

abbrev pub is_missing : Option ScfFile → Bool
is_missing none = true
is_missing (some file) = false

-- The checks of a run without the SCF layer, and with it where its file exists.
reconcile_plain :
    (src : Sources) → (cs : List Check) × (reconcile false (run_hops src false empty_build) ≡ ok cs)
reconcile_plain src =
    let b = run_hops src false empty_build in
    returns_plain b (
      all_still b.recon (record_totals b).recon spine_checks (totals_record b)
        (spine_recorded src empty_build))

-- The figures of the spine in a run with the SCF layer.
spine_recorded_scf :
    (src : Sources) → HasAll (record_totals (run_hops src true empty_build)).recon spine_checks
spine_recorded_scf src =
    let spine = run_hops src false empty_build in
    let (atks, e) = run_hops_scf src empty_build in
    let b = hop5prime_scf src.scf_sankey atks spine in
    rw (e) (
      all_still spine.recon (record_totals b).recon spine_checks
        (λ n h. totals_record b n (hop5prime_scf_records src.scf_sankey atks spine n h))
        (spine_recorded src empty_build))

reconcile_scf :
    (src : Sources) (file : ScfFile)
    → src.scf_sankey ≡ some file
    → (cs : List Check) × (reconcile true (run_hops src true empty_build) ≡ ok cs)
reconcile_scf src file there =
    let (atks, e) = run_hops_scf src empty_build in
    let b = hop5prime_scf src.scf_sankey atks (run_hops src false empty_build) in
    let recorded_scf : HasAll b.recon scf_checks =
      subst (λ o. HasAll (hop5prime_scf o atks (run_hops src false empty_build)).recon scf_checks)
        (sym there) (scf_recorded file atks (run_hops src false empty_build)) in
    let totals =
      all_still b.recon (record_totals b).recon scf_checks (totals_record b) recorded_scf in
    returns_scf (run_hops src true empty_build) (spine_recorded_scf src) (rw (e) totals)

missing_not_there : (src : Sources) → src.scf_sankey ≡ none → is_missing src.scf_sankey ≡ false → ⊥
missing_not_there src missing h = let there = rw (missing) at h in absurd cc

raise_not_ok : {x : Exit} {e : Error} → ok x ≡ raise e → ⊥
raise_not_ok h = absurd cc

-- `main` raises a KeyError, of the first SCF figure, exactly where the SCF layer is asked for and its
-- file does not exist.
pub main_raises_iff :
    (src : Sources) (with_scf strict : Bool)
    → (main src with_scf strict ≡ raise (key_error "scf_controls_attack"))
      ↔ ((with_scf ≡ true) × (src.scf_sankey ≡ none))
unfolding main
main_raises_iff src false strict =
    let (cs, e) = reconcile_plain src in
    (λ raised. absurd (raise_not_ok (rw (e) at raised)), λ asked. absurd (ground arith))
main_raises_iff src true strict = elim (Option-cases src.scf_sankey) [
  | inl missing ↦
      let e =
        raises_scf (run_hops src true empty_build) (spine_recorded_scf src)
          (lacks_scf src missing) in
      (λ raised. (refl, missing), λ asked. rw (e) refl)
  | inr (file, there) ↦
      let (cs, e) = reconcile_scf src file there in
      (λ raised. absurd (raise_not_ok (rw (e) at raised)), λ asked. absurd (ground arith))
]

-- Where the SCF layer is not asked for, or its file exists, `main` ends with an exit: every figure
-- that the checks read has been recorded.
pub main_returns :
    (src : Sources) (with_scf strict : Bool)
    → (with_scf && is_missing src.scf_sankey) ≡ false
    → (end : Exit) × (main src with_scf strict ≡ ok end)
unfolding main
main_returns src false strict h =
    let (cs, e) = reconcile_plain src in (exit_of strict cs, rw (e) refl)
main_returns src true strict h = elim (Option-cases src.scf_sankey) [
  | inl missing ↦ absurd (missing_not_there src missing h)
  | inr (file, there) ↦
      let (cs, e) = reconcile_scf src file there in (exit_of strict cs, rw (e) refl)
]
