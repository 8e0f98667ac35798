-- ===== src/ConceptGraph/Scaffold.antt =====
-- The graph that the hops build, security-context-graph/scg.py (`SCG`), and the figures that they
-- record beside it. Attributes of a node are texts; a None among them is `none`.
use sdw_lab_benchmarks.Prelude.{
  ℕ, String, Bool, true, false, ◌&&◌, Option, List, [], ◌∷◌, ◌++◌, ◌==◌, Dict, keys, insert,
  contains, string_eq, nat_eq, if◌then◌else◌,
}

-- `EVENT_NTYPES`
abbrev pub event_ntypes : List String
event_ntypes =
    "auth_event" ∷ "session" ∷ "net_event" ∷ "dns_event" ∷ "process_event" ∷ "api_event" ∷ "event"
    ∷ []

pub record NodeAttrs : Type 0 where
  pub ntype : String
  pub label : String
  pub attrs : Dict String (Option String)

pub record EdgeAttrs : Type 0 where
  pub src : String
  pub dst : String
  pub rel : String
  pub tier : String
  pub proxy_quality : String
  pub source_file : String
  pub proxy_note : String

pub record Scg : Type 0 where
  pub nodes : Dict String NodeAttrs
  pub edges : List EdgeAttrs

-- `SCG()`
abbrev pub new_scg : Scg
new_scg = record { nodes = []; edges = [] }

-- `nid in self.nodes`
unfoldable pub has_node : Scg → String → Bool
unfolding contains
has_node scg nid = contains (keys scg.nodes) nid

-- `SCG.node`: the first write of an id wins. The code gives the id back, which the caller knows.
unfoldable pub node : String → String → String → Dict String (Option String) → Scg → Scg
unfolding has_node insert
node nid ntype label attrs scg = if has_node scg nid then scg else record scg {
  nodes = insert nid (record { ntype = ntype; label = label; attrs = attrs }) scg.nodes;
}

-- `SCG.edge`
unfoldable pub edge : String → String → String → String → String → String → String → Scg → Scg
edge src dst rel tier proxy_quality source_file proxy_note scg = record scg {
  edges =
      scg.edges
      ++ record {
        src = src;
        dst = dst;
        rel = rel;
        tier = tier;
        proxy_quality = proxy_quality;
        source_file = source_file;
        proxy_note = proxy_note;
      }
        ∷ [];
}

-- A value of `recon`.
pub data Figure : Type 0 where
  number : ℕ → Figure
  flag : Bool → Figure
  names : List String → Figure
  counts : Dict String ℕ → Figure

abbrev pub same_names : List String → List String → Bool
same_names [] [] = true
same_names [] (t ∷ ts) = false
same_names (s ∷ ss) [] = false
same_names (s ∷ ss) (t ∷ ts) = s == t && same_names ss ts

-- `got == exp` for values of one type
abbrev pub same_figure : Figure → Figure → Bool
same_figure (number m) (number n) = m == n
same_figure (flag true) (flag b) = b
same_figure (flag false) (flag b) = if b then false else true
same_figure (names ss) (names ts) = same_names ss ts
same_figure _ _ = false

abbrev pub Recon : Type 0
Recon = Dict String Figure

-- What a hop changes.
pub record Build : Type 0 where
  pub scg : Scg
  pub recon : Recon

-- `recon[name] = n`
unfoldable pub record_figure : String → Figure → Build → Build
unfolding insert
record_figure name figure b = record b { recon = insert name figure b.recon }
