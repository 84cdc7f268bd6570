-- ===== src/Serve/Editing.antt =====
-- The editor and the server together: the file that an edit leaves, and a reload of it.
use omny.Base.{◌≡◌, refl, ◌∙◌, inl, inr, Bool, true, List, Option, some, All, All-map, Bytes}
use omny.Config.{Config}
use omny.Loader.{load}
use omny.State.{Files, Calls}
use omny.Edit.Node.{Node}
use omny.Edit.Tweaks.{Tweak}
use omny.Edit.Amend.{amend}
use omny.Edit.Amend.Safety.{amend-IsSafe}
use omny.Serve.{Server, reload}

module _ (fp : Bytes → Bytes) (split_host_port : Bytes → Option Bytes)
    (parse_url : Bytes → Option (Bytes × Bytes)) (blank : Bytes → Bool)
    (parse : Bytes → Option Config) where
  -- A reload takes the file.
  abbrev pub IsTaken : Bytes → Server → Files → Type 0
  IsTaken path s f =
      (b : Bytes) × (f path ≡ some b)
      × ((reload fp split_host_port parse_url blank parse b s).1 ≡ true)

  reload_of_load :
      (b : Bytes) (c : Config) (s : Server)
      → load split_host_port parse_url blank parse b ≡ some c
      → (reload fp split_host_port parse_url blank parse b s).1 ≡ true
  unfolding reload
  reload_of_load b c s e = rw (e, reload) refl

  module _ (nodes : Bytes → Option Node) where
    -- Where the file loads before an edit, a reload takes the file in every state that the edit passes
    -- through, whatever its tweaks do and whichever of its calls fail.
    pub edit-reloads :
        (calls : Calls) (path prov : Bytes) (tweaks : List Tweak) (fs : Files) (src : Bytes)
        (c : Config) (s : Server)
        → fs path ≡ some src
        → load split_host_port parse_url blank parse src ≡ some c
        → All
            (IsTaken path s)
            (amend nodes (load split_host_port parse_url blank parse) calls path prov tweaks fs).0
    edit-reloads calls path prov tweaks fs src c s e h =
        let old : (f : Files) → f path ≡ fs path → IsTaken path s f =
          λ f k. (src, k ∙ e, reload_of_load src c s h) in
        elim (amend-IsSafe nodes (load split_host_port parse_url blank parse) calls path prov tweaks
          fs) [
            | inl (same, _) ↦ All-map old _ same
            | inr (b, c', l, either, _, _) ↦
                All-map
                  (λ f k. elim k [ inl i ↦ old f i | inr i ↦ (b, i, reload_of_load b c' s l) ]) _
                  either
          ]
