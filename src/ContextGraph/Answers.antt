-- ===== src/ContextGraph/Answers.antt =====
-- What the tools of the server answer.
use sdw_lab_benchmarks.Prelude.{
  ℕ, ◌≤◌, ◌+◌, ◌≡◌, refl, arith, String, true, false, ◌||◌, ◌&&◌, Bool, leb, if◌then◌else◌, List,
  [], ◌∷◌, ◌++◌, ◌==◌, map, keep, length, length-append, length-map, All-of_map, length-keep,
  length-take-le, count_if, All, All-append, All-map, All-take, All-keep, All-any, All-sort_by,
  IsOrdered, take-IsOrdered, sort_by, sort_by-IsOrdered, length-sort_by, ltb, string_eq, Bool-cases,
  inl, inr,
}
use sdw_lab_benchmarks.Prelude.TextOrder.{text_le_total, text_le_trans}
use sdw_lab_benchmarks.ContextGraph.Graph.{Edge, edges_at, trust}
use sdw_lab_benchmarks.ContextGraph.Index.{Server}
use sdw_lab_benchmarks.ContextGraph.Tools.{
  EdgeView, edge_view, Side, is_wanted, view_le, neighbors_of,
}
use sdw_lab_benchmarks.ContextGraph.Coverage.{
  has_ntype, CoverLists, cover_edge, cover_edges, trust_le, coverage_of,
}

view_le_total : (v w : EdgeView) → view_le v w ≡ false → view_le w v ≡ true
unfolding view_le
view_le_total v w h = ground (arith, text_le_total v.rel w.rel)

view_le_trans : (u v w : EdgeView) → view_le u v ≡ true → view_le v w ≡ true → view_le u w ≡ true
unfolding view_le
view_le_trans u v w h k = ground (arith, text_le_trans u.rel v.rel w.rel)

module _ (s : Server) (side : Side) (rel_prefix : String) (min_trust : ℕ) where
  wanted_views :
      (edges : List Edge)
      → All
          (λ (v : EdgeView). min_trust ≤ v.trust_value)
          (map (edge_view s) (keep (is_wanted side rel_prefix min_trust) edges))
  unfolding edge_view is_wanted
  wanted_views edges =
      let any = All-any (λ (e : Edge). Unit {0}) (λ e. tt) edges in
      All-of_map (edge_view s) (λ (v : EdgeView). min_trust ≤ v.trust_value) _
        (All-map _ (λ (e : Edge). min_trust ≤ trust e.proxy_quality) (λ e h. ground arith) _
          (All-keep (λ (e : Edge). Unit {0}) (is_wanted side rel_prefix min_trust) edges any))

  -- The neighbours are trusted enough and ranked by trust, then relation; no more than `limit` are
  -- shown, and all the wanted edges of the node are counted.
  pub neighbors_ranked :
      (limit : ℕ) (nid : String)
      → All
          (λ (v : EdgeView). min_trust ≤ v.trust_value)
          (neighbors_of s side rel_prefix min_trust limit nid).found
        × IsOrdered view_le (neighbors_of s side rel_prefix min_trust limit nid).found
        × (length (neighbors_of s side rel_prefix min_trust limit nid).found ≤ limit)
        × ((neighbors_of s side rel_prefix min_trust limit nid).neighbor_count
            ≡ count_if (is_wanted side rel_prefix min_trust) (edges_at s.adj nid))
  unfolding neighbors_of
  neighbors_ranked limit nid =
      let edges = edges_at s.adj nid in
      let kept = keep (is_wanted side rel_prefix min_trust) edges in
      let views = map (edge_view s) kept in
      (
        All-take (λ (v : EdgeView). min_trust ≤ v.trust_value) limit (sort_by view_le views)
            (All-sort_by view_le (λ (v : EdgeView). min_trust ≤ v.trust_value) views
              (wanted_views edges)),
        take-IsOrdered view_le limit (sort_by view_le views)
            (sort_by-IsOrdered view_le view_le_total view_le_trans views),
        length-take-le limit (sort_by view_le views),
        rw (length-sort_by, length-map, length-keep) refl,
      )

-- How many views the lists hold.
abbrev held : CoverLists → ℕ
held c = length c.defenses + (length c.mitigations + length c.tactics)

-- Every edge shown has the trust asked for.
abbrev pub IsTrusted : ℕ → List EdgeView → Type 0
IsTrusted min_trust vs = All (λ (v : EdgeView). min_trust ≤ v.trust_value) vs

abbrev AllTrusted : ℕ → CoverLists → Type 0
AllTrusted min_trust c =
    IsTrusted min_trust c.defenses
    × IsTrusted min_trust c.mitigations
    × IsTrusted min_trust c.tactics

-- An edge that is trusted enough and is a defense, a mitigation or a tactic of the attack.
abbrev pub is_covering : Server → ℕ → Edge → Bool
is_covering s min_trust e =
    leb min_trust (trust e.proxy_quality)
    && (e.rel == "may_counter"
        || has_ntype s "defense" e.to
        || has_ntype s "attack_mitigation" e.to
        || e.rel == "curated_mitigation"
        || has_ntype s "attack_tactic" e.to
        || e.rel == "in_tactic")

-- One more edge puts one view into one of the lists if it covers, and none otherwise.
cover_edge-held :
    (s : Server) (min_trust : ℕ) (e : Edge) (c : CoverLists)
    → held (cover_edge s min_trust e c) ≡ (if is_covering s min_trust e then 1 else 0) + held c
unfolding cover_edge
cover_edge-held s min_trust e c =
    let v = edge_view s e in
    ground (
      arith,
      length-append c.defenses (v ∷ []),
      length-append c.mitigations (v ∷ []),
      length-append c.tactics (v ∷ []),
    )

cover_edges-held :
    (s : Server) (min_trust : ℕ) (edges : List Edge) (c : CoverLists)
    → held (cover_edges s min_trust edges c) ≡ count_if (is_covering s min_trust) edges + held c
unfolding cover_edges
cover_edges-held s min_trust [] c = omega arith
cover_edges-held s min_trust (e ∷ edges) c =
    let next = cover_edge s min_trust e c in
    omega (arith, cover_edges-held s min_trust edges next, cover_edge-held s min_trust e c)

put_trusted :
    (min_trust : ℕ) (v : EdgeView) (vs : List EdgeView)
    → min_trust ≤ v.trust_value
    → All (λ (w : EdgeView). min_trust ≤ w.trust_value) vs
    → All (λ (w : EdgeView). min_trust ≤ w.trust_value) (vs ++ v ∷ [])
put_trusted min_trust v vs h all =
    All-append (λ (w : EdgeView). min_trust ≤ w.trust_value) vs (v ∷ []) all (h, tt)

cover_edge-AllTrusted :
    (s : Server) (min_trust : ℕ) (e : Edge) (c : CoverLists)
    → AllTrusted min_trust c
    → AllTrusted min_trust (cover_edge s min_trust e c)
unfolding cover_edge edge_view
cover_edge-AllTrusted s min_trust e c t =
    let v = edge_view s e in
    elim (Bool-cases (ltb (trust e.proxy_quality) min_trust)) [
      | inl weak ↦ rw (weak) t
      | inr strong ↦
          let h : min_trust ≤ v.trust_value = ground arith in
          elim (Bool-cases (e.rel == "may_counter" || has_ntype s "defense" e.to)) [
            | inl counter ↦
                rw (strong, counter) (put_trusted min_trust v c.defenses h t.0, t.1, t.2)
            | inr no_counter ↦
                elim (Bool-cases
                  (has_ntype s "attack_mitigation" e.to || e.rel == "curated_mitigation")) [
                    | inl mitigates ↦
                        rw (strong, no_counter, mitigates)
                          (t.0, put_trusted min_trust v c.mitigations h t.1, t.2)
                    | inr no_mitigation ↦
                        elim (Bool-cases
                          (has_ntype s "attack_tactic" e.to || e.rel == "in_tactic")) [
                            | inl tactic ↦
                                rw (strong, no_counter, no_mitigation, tactic)
                                  (t.0, t.1, put_trusted min_trust v c.tactics h t.2)
                            | inr none_of_them ↦
                                rw (strong, no_counter, no_mitigation, none_of_them) t
                          ]
                  ]
          ]
    ]

cover_edges-AllTrusted :
    (s : Server) (min_trust : ℕ) (edges : List Edge) (c : CoverLists)
    → AllTrusted min_trust c
    → AllTrusted min_trust (cover_edges s min_trust edges c)
unfolding cover_edges
cover_edges-AllTrusted s min_trust [] c t = t
cover_edges-AllTrusted s min_trust (e ∷ edges) c t =
    cover_edges-AllTrusted s min_trust edges (cover_edge s min_trust e c)
      (cover_edge-AllTrusted s min_trust e c t)

trust_le_total : (v w : EdgeView) → trust_le v w ≡ false → trust_le w v ≡ true
unfolding trust_le
trust_le_total v w h = ground arith

trust_le_trans :
    (u v w : EdgeView) → trust_le u v ≡ true → trust_le v w ≡ true → trust_le u w ≡ true
unfolding trust_le
trust_le_trans u v w h k = ground arith

-- The coverage of an attack lists only edges that are trusted enough, in each of its three lists:
-- the defenses ranked by trust, no more than `limit` of the defenses and of the mitigations, and the
-- counts and the tactics account for each trusted edge of the node that is a defense, a mitigation
-- or a tactic exactly once.
pub coverage_ranked :
    (s : Server) (min_trust limit : ℕ) (nid : String)
    → IsTrusted min_trust (coverage_of s min_trust limit nid).defenses_may_counter.items
      × IsTrusted min_trust (coverage_of s min_trust limit nid).curated_mitigations.items
      × IsTrusted min_trust (coverage_of s min_trust limit nid).tactics
      × IsOrdered trust_le (coverage_of s min_trust limit nid).defenses_may_counter.items
      × (length (coverage_of s min_trust limit nid).defenses_may_counter.items ≤ limit)
      × (length (coverage_of s min_trust limit nid).curated_mitigations.items ≤ limit)
      × ((coverage_of s min_trust limit nid).defenses_may_counter.count
            + ((coverage_of s min_trust limit nid).curated_mitigations.count
                + length (coverage_of s min_trust limit nid).tactics)
          ≡ count_if (is_covering s min_trust) (edges_at s.adj nid))
unfolding coverage_of
coverage_ranked s min_trust limit nid =
    let edges = edges_at s.adj nid in
    let start : CoverLists = record { defenses = []; mitigations = []; tactics = [] } in
    let c = cover_edges s min_trust edges start in
    let P = λ (v : EdgeView). min_trust ≤ v.trust_value in
    let trusted = cover_edges-AllTrusted s min_trust edges start (tt, tt, tt) in
    (
      All-take P limit (sort_by trust_le c.defenses) (All-sort_by trust_le P c.defenses trusted.0),
      All-take P limit c.mitigations trusted.1,
      trusted.2,
      take-IsOrdered trust_le limit (sort_by trust_le c.defenses)
          (sort_by-IsOrdered trust_le trust_le_total trust_le_trans c.defenses),
      length-take-le limit (sort_by trust_le c.defenses),
      length-take-le limit c.mitigations,
      rw (length-sort_by) (omega (arith, cover_edges-held s min_trust edges start)),
    )
