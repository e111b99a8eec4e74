-- ===== src/PkgNode/Paths.antt =====
-- A package that was added is found under its path, and what was found before still is.
use koala_lang_pre.Prelude.{
  ◌==◌, Option-cases, if_ind, length, bytes_eq_refl, ℕ, zero, suc, ◌+◌, ◌≤◌, ◌<◌, ◌≡◌, refl, sym,
  ap, ◌∙◌, subst, inl, inr, true, none, some, List, [], ◌∷◌, ◌++◌, append_assoc, append-nil, arith,
}
use koala_lang_pre.PkgNode.{
  PkgNode, Added, added, exists_already, failed, name_of, skip_slashes, names, find_from, find_node,
  is_leaf, add_names, find_names, add_pkgnode, find_pkgnode,
}

length-skip_slashes : (path : List ℕ) → length (skip_slashes path) ≤ length path
unfolding skip_slashes
length-skip_slashes [] = ground arith
length-skip_slashes (c ∷ path) = ground (arith, length-skip_slashes path)

length-name_of : (path : List ℕ) → length (name_of path).1 ≤ length path
unfolding name_of
length-name_of [] = ground arith
length-name_of (c ∷ path) = ground (arith, length-name_of path)

-- As much fuel as the path is long is enough for its names.
pub names-total :
    (f c : ℕ) (path : List ℕ)
    → length path < f
    → (ns : List (List ℕ)) × (names f (c ∷ path) ≡ some ns)
unfolding names
names-total zero c path h = absurd (omega arith)
names-total (suc f) c path h =
    let shorter : length (skip_slashes (name_of path).1) ≤ length path =
      omega (arith, length-skip_slashes (name_of path).1, length-name_of path) in
    go (λ d more n. names-total f d more n) (skip_slashes (name_of path).1) refl shorter
  where
    go :
        ((d : ℕ) (more : List ℕ)
          → length more < f
          → (ns : List (List ℕ)) × (names f (d ∷ more) ≡ some ns))
        → (r : List ℕ) → skip_slashes (name_of path).1 ≡ r
        → length r ≤ length path
        → (ns : List (List ℕ)) × (names (suc f) (c ∷ path) ≡ some ns)
    go ih [] e n = ((c ∷ (name_of path).0) ∷ [], rw (names, e) refl)
    go ih (d ∷ more) e n =
        let (ns, g) = ih d more (omega (arith, n, h)) in
        ((c ∷ (name_of path).0) ∷ ns, rw (names, e, ap (names f) e ∙ g) refl)

module _ {D : Type 0} where
  find_from-append :
      (i a : ℕ) (nodes more : List (PkgNode D)) (name : List ℕ) (parent : ℕ)
      → find_from i nodes name parent ≡ some a
      → find_from i (nodes ++ more) name parent ≡ some a
  unfolding find_from
  find_from-append i a [] more name parent h = absurd (ground arith)
  find_from-append i a (n ∷ nodes) more name parent h =
      ground (arith, find_from-append (suc i) a nodes more name parent)

  find_from-new :
      (i : ℕ) (nodes more : List (PkgNode D)) (node : PkgNode D)
      → find_from i nodes node.name node.parent ≡ none
      → find_from i (nodes ++ node ∷ more) node.name node.parent ≡ some (length nodes + i)
  unfolding find_from
  find_from-new i [] more node h =
      let same : (node.parent == node.parent) ≡ true = ground arith in
      let equal = bytes_eq_refl node.name in rw (same, equal) (ap (λ (n : ℕ). some n) (omega arith))
  find_from-new i (n ∷ nodes) more node h =
      let ih = find_from-new (suc i) nodes more node in ground (arith, ih)

  -- The table `r` has the nodes of `nodes`, and more behind them.
  pub record Extends (nodes r : List (PkgNode D)) : Type 0 where
    pub more : List (PkgNode D)
    pub whole : r ≡ nodes ++ more

  -- The outcome of adding the names below `parent`.
  abbrev pub Adds : List (PkgNode D) → ℕ → List (List ℕ) → Added D → Type 0
  Adds nodes parent ns (added r a) = (find_names r parent ns ≡ some a) × Extends nodes r
  Adds nodes parent ns exists_already = Unit {0}
  Adds nodes parent ns failed = Unit {0}

  Extends-trans : (a b c : List (PkgNode D)) → Extends a b → Extends b c → Extends a c
  Extends-trans a b c p q = record {
    more = p.more ++ q.more;
    whole =
        q.whole ∙ ap (λ (l : List (PkgNode D)). l ++ q.more) p.whole ∙ append_assoc a p.more q.more;
  }

  find_node-Extends :
      (nodes r : List (PkgNode D)) (name : List ℕ) (parent a : ℕ)
      → Extends nodes r
      → find_node nodes name parent ≡ some a
      → find_node r name parent ≡ some a
  unfolding find_node
  find_node-Extends nodes r name parent a x h =
      ap (λ (l : List (PkgNode D)). find_from 1 l name parent) x.whole
      ∙ find_from-append 1 a nodes x.more name parent h

  -- One name more, whose node is in the table.
  Adds-step :
      (nodes with_new : List (PkgNode D)) (parent a : ℕ) (name next : List ℕ) (more : List (List ℕ))
      (o : Added D)
      → Extends nodes with_new
      → find_node with_new name parent ≡ some a
      → Adds with_new a (next ∷ more) o
      → Adds nodes parent (name ∷ next ∷ more) o
  unfolding find_names
  Adds-step nodes with_new parent a name next more (added r b) x h (g, y) = (
    rw (find_names, find_node-Extends with_new r name parent a y h) g,
    Extends-trans nodes with_new r x y,
  )
  Adds-step nodes with_new parent a name next more exists_already x h g = tt
  Adds-step nodes with_new parent a name next more failed x h g = tt

  Extends-one : (nodes : List (PkgNode D)) (node : PkgNode D) → Extends nodes (nodes ++ node ∷ [])
  Extends-one nodes node = record { more = node ∷ []; whole = refl }

  Extends-refl : (nodes : List (PkgNode D)) → Extends nodes nodes
  Extends-refl nodes = record { more = []; whole = sym (append-nil nodes) }

  find_new :
      (nodes : List (PkgNode D)) (node : PkgNode D)
      → find_node nodes node.name node.parent ≡ none
      → find_node (nodes ++ node ∷ []) node.name node.parent ≡ some (length nodes + 1)
  unfolding find_node
  find_new nodes node h = find_from-new 1 nodes [] node h

  add_names-Adds :
      (nodes : List (PkgNode D)) (parent : ℕ) (ns : List (List ℕ)) (d : D)
      → Adds nodes parent ns (add_names nodes parent ns d)
  unfolding add_names find_names
  add_names-Adds nodes parent [] d = tt
  add_names-Adds nodes parent (name ∷ []) d = elim (Option-cases (find_node nodes name parent)) [
    | inr (a, e) ↦ rw (add_names, e) tt
    | inl e ↦
        let node : PkgNode D = record { name = name; parent = parent; leaf = some d } in
        rw (add_names, e)
          (if_ind (Adds nodes parent (name ∷ [])) (is_leaf nodes parent) (λ _. tt)
            (λ _. (find_new nodes node e, Extends-one nodes node)))
  ]
  add_names-Adds nodes parent (name ∷ next ∷ more) d =
      elim (Option-cases (find_node nodes name parent)) [
        | inr (a, e) ↦
            rw (add_names, e)
              (Adds-step nodes nodes parent a name next more _ (Extends-refl nodes) e
                (add_names-Adds nodes a (next ∷ more) d))
        | inl e ↦
            let node : PkgNode D = record { name = name; parent = parent; leaf = none } in
            let with_new = nodes ++ node ∷ [] in
            rw (add_names, e)
              (if_ind (Adds nodes parent (name ∷ next ∷ more)) (is_leaf nodes parent) (λ _. tt)
                (λ _.
                  Adds-step nodes with_new parent (length nodes + 1) name next more _
                    (Extends-one nodes node) (find_new nodes node e)
                    (add_names-Adds with_new (length nodes + 1) (next ∷ more) d)))
      ]

  add_pkgnode-add_names :
      (nodes : List (PkgNode D)) (path : List ℕ) (ns : List (List ℕ)) (d : D)
      → names (length path) path ≡ some ns
      → add_pkgnode nodes path d ≡ add_names nodes 0 ns d
  unfolding add_pkgnode
  add_pkgnode-add_names nodes path ns d e = rw (add_pkgnode, e) refl

  -- The package that `Add_PkgNode` adds under a path is the one that `Find_PkgNode` then finds under that
  -- path, and the table has all its earlier nodes in their order, with new ones behind them.
  pub add_pkgnode-find :
      (nodes r : List (PkgNode D)) (path : List ℕ) (d : D) (a : ℕ)
      → add_pkgnode nodes path d ≡ added r a
      → (find_pkgnode r path ≡ some a) × Extends nodes r
  unfolding add_pkgnode find_pkgnode
  add_pkgnode-find nodes r path d a h = elim (Option-cases (names (length path) path)) [
    | inl e ↦ absurd (ground arith)
    | inr (ns, e) ↦
        let split = sym (add_pkgnode-add_names nodes path ns d e) ∙ h in
        let adds : Adds nodes 0 ns (added r a) =
          subst (Adds nodes 0 ns) split (add_names-Adds nodes 0 ns d) in
        (rw (find_pkgnode, e) (adds.0), adds.1)
  ]
