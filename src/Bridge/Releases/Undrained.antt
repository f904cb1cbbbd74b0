-- ===== src/Bridge/Releases/Undrained.antt =====
-- The sweep of the releases that a stopped worker never took.
use aiopquic.Base.{◌≡◌, refl, ap, subst, ◌∙◌, Option, none, List, [], ◌∷◌, ◌++◌}
use aiopquic.DgramTable.{Table, Rings, Result, done, no_memory, fault}
use aiopquic.Bridge.Releases.{
  Release, Owing, releases, drop_all_of, cleared_entries, swept, release_undrained,
}

releases-cleared : (es : List (Option Release)) → releases (cleared_entries es) ≡ []
releases-cleared [] = refl
releases-cleared (e ∷ es) = releases-cleared es

cleared_twice :
    (es : List (Option Release)) → cleared_entries (cleared_entries es) ≡ cleared_entries es
cleared_twice [] = refl
cleared_twice (e ∷ es) = ap (λ l. none ∷ l) (cleared_twice es)

-- What a sweep leaves, and the second one.
abbrev clear : Owing → List (Option Release) → Owing
clear x es = record x { entries = es; owed = [] }

again :
    (x : Owing) (t : Table) (w : Rings)
    → let y = clear x (cleared_entries x.entries) in release_undrained y t w ≡ done (y, t, w)
unfolding release_undrained drop_all_of
again x t w =
    let y = clear x (cleared_entries x.entries) in
    ap (λ rs. swept y (drop_all_of (rs ++ []) t w)) (releases-cleared x.entries)
    ∙ ap (λ es. done (clear x es, t, w)) (cleared_twice x.entries)

abbrev end_of : Owing × Table × Rings → Result (Owing × Table × Rings) → Owing × Table × Rings
end_of z (done y) = y
end_of z no_memory = z
end_of z fault = z

abbrev Still : Owing × Table × Rings → Type 0
Still z = release_undrained z.0 z.1 z.2 ≡ done z

-- A second sweep changes nothing.
pub release_undrained_twice :
    (x x' : Owing) (t t' : Table) (w w' : Rings)
    → release_undrained x t w ≡ done (x', t', w')
    → release_undrained x' t' w' ≡ done (x', t', w')
unfolding release_undrained
release_undrained_twice x x' t t' w w' first =
    by_end (drop_all_of (releases x.entries ++ x.owed) t w) first
  where
    by_end : (r : Result (Table × Rings)) → swept x r ≡ done (x', t', w') → Still (x', t', w')
    by_end no_memory e = absurd (cc (e))
    by_end fault e = absurd (cc (e))
    by_end (done (t₂, w₂)) e = subst Still (ap (end_of (x', t', w')) e) (again x t₂ w₂)
