-- ===== src/Watch/Watcher/Limit.antt =====
-- How many folders the walk of `addRecursive` in internal/watch/watcher.go has watched.
use muxprune.Base.{
  ℕ, suc, ◌≤◌, ◌≡◌, refl, sym, ap, ◌∙◌, Bool, true, false, ◌&&◌, ◌||◌, Option, none, some, List, [],
  ◌∷◌, ◌++◌, arith, Text, text, text_eq, has_prefix, trim_suffix, join_path, ltb, leb,
  if◌then◌else◌, length, length-append, exists_in, Bool-cases, inl, inr,
}
use muxprune.Scan.Walk.{Tree, leaf, unreadable, folder, file}
use muxprune.Watch.Watcher.{
  LibWatcher, is_known, report_status, fsw_add, add_watch, add_below, add_recursive,
}

-- What the walk knows is what is watched, and counted.
pub record IsCounted (limit : ℕ) (known : List Text) (w : LibWatcher) : Type 0 where
  pub limit_is : w.watch_limit ≡ limit
  pub known_count : length known ≡ w.watches
  pub watched_count : length w.watch_list ≡ w.watches
  pub same : (p : Text) → is_known p known ≡ is_known p w.watch_list
  pub below : w.watches ≤ limit

is_known-append :
    (q p : Text) (ps : List Text) → is_known q (ps ++ p ∷ []) ≡ (text_eq q p || is_known q ps)
unfolding exists_in
is_known-append q p [] = refl
is_known-append q p (x ∷ ps) = ground (arith, is_known-append q p ps)

IsCounted-reported :
    (limit : ℕ) (known : List Text) (w : LibWatcher) (b : Bool) (ts : List Text)
    → IsCounted limit known w
    → IsCounted limit known (record w { degraded = b; statuses = ts })
IsCounted-reported limit known w b ts c = record {
  limit_is = c.limit_is;
  known_count = c.known_count;
  watched_count = c.watched_count;
  same = c.same;
  below = c.below;
}

IsCounted-degraded :
    (limit : ℕ) (known : List Text) (w : LibWatcher)
    → IsCounted limit known w
    → IsCounted limit known (
        if w.degraded then w else report_status (text "watch-limit") (record w { degraded = true }))
IsCounted-degraded limit known w c = elim (Bool-cases w.degraded) [
  | inl e ↦ rw e (IsCounted-reported limit known w true w.statuses c)
  | inr e ↦ rw e (IsCounted-reported limit known w true (w.statuses ++ text "watch-limit" ∷ []) c)
]

IsCounted-added :
    (limit : ℕ) (p : Text) (known : List Text) (w : LibWatcher)
    → is_known p known ≡ false
    → suc w.watches ≤ limit
    → IsCounted limit known w
    → IsCounted limit (p ∷ known) (fsw_add p (record w { watches = suc w.watches }))
unfolding exists_in
IsCounted-added limit p known w n room c =
    let fresh : is_known p w.watch_list ≡ false = sym (c.same p) ∙ n in
    record {
      limit_is = c.limit_is;
      known_count = ap suc c.known_count;
      watched_count =
          rw fresh (omega (arith, length-append w.watch_list (p ∷ []), c.watched_count));
      same = λ q.
          rw fresh (ap (λ b. text_eq q p || b) (c.same q) ∙ sym (is_known-append q p w.watch_list));
      below = room;
    }

IsCounted-again :
    (limit : ℕ) (p : Text) (known : List Text) (w : LibWatcher)
    → is_known p known ≡ true
    → IsCounted limit known w
    → IsCounted limit known (fsw_add p w)
IsCounted-again limit p known w k c =
    let there : is_known p w.watch_list ≡ true = sym (c.same p) ∙ k in
    record {
      limit_is = c.limit_is;
      known_count = c.known_count;
      watched_count = rw there c.watched_count;
      same = λ q. rw there (c.same q);
      below = c.below;
    }

add_watch-IsCounted :
    (limit : ℕ) (accepts : Text → Bool) (p : Text) (known : List Text) (w : LibWatcher)
    → 1 ≤ limit
    → IsCounted limit known w
    → let out = add_watch accepts p known w in IsCounted limit out.1.0 out.1.1
unfolding add_watch
add_watch-IsCounted limit accepts p known w pos_limit c = elim (Bool-cases (is_known p known)) [
  | inl k ↦ elim (Bool-cases (accepts p)) [
    | inl a ↦ rw (k, a) (IsCounted-again limit p known w k c)
    | inr a ↦ rw (k, a) c
  ]
  | inr k ↦ elim (Bool-cases (ltb 0 w.watch_limit && leb w.watch_limit w.watches)) [
    | inl full ↦ rw (k, full) (IsCounted-degraded limit known w c)
    | inr free ↦ elim (Bool-cases (accepts p)) [
      | inr a ↦ rw (k, free, a) c
      | inl a ↦
          rw (k, free, a)
            (IsCounted-added limit p known w k (ground (arith, free, c.limit_is, c.below)) c)
    ]
  ]
]

add_below-IsCounted :
    (limit : ℕ) (accepts : Text → Bool) (at : Text) (tree : Tree) (s : List Text × LibWatcher)
    → 1 ≤ limit
    → IsCounted limit s.0 s.1
    → let out = add_below accepts at tree s in IsCounted limit out.0 out.1
unfolding add_below
add_below-IsCounted limit accepts at leaf s l c = c
add_below-IsCounted limit accepts at (unreadable rest) s l c =
    add_below-IsCounted limit accepts at rest s l c
add_below-IsCounted limit accepts at (file name info target rest) s l c =
    add_below-IsCounted limit accepts at rest s l c
add_below-IsCounted limit accepts at (folder name below rest) s l c =
    let out = add_watch accepts (join_path at name) s.0 s.1 in
    let added = add_watch-IsCounted limit accepts (join_path at name) s.0 s.1 l c in
    let under = add_below accepts (join_path at name) below out.1 in
    add_below-IsCounted limit accepts at rest
      (if has_prefix name (text ".") then s else if out.0 then under else out.1) l
      (elim (Bool-cases (has_prefix name (text "."))) [
        | inl h ↦ rw h c
        | inr h ↦ elim (Bool-cases out.0) [
          | inl a ↦
              rw (h, a) (add_below-IsCounted limit accepts (join_path at name) below out.1 l added)
          | inr a ↦ rw (h, a) added
        ]
      ])

counted_bound :
    (limit : ℕ) (known : List Text) (w : LibWatcher)
    → IsCounted limit known w
    → (length w.watch_list ≤ limit) × (w.watches ≡ length w.watch_list)
counted_bound limit known w c = (omega (arith, c.watched_count, c.below), sym c.watched_count)

-- Where no more folders are watched than the limit, a walk leaves no more, whatever it finds, and
-- the count is that of the folders watched.
pub add_recursive-le-limit :
    (accepts : Text → Bool) (root : Text) (tree : Option Tree) (w : LibWatcher)
    → 1 ≤ w.watch_limit
    → length w.watch_list ≤ w.watch_limit
    → let next = add_recursive accepts root tree w in
      (length next.watch_list ≤ w.watch_limit) × (next.watches ≡ length next.watch_list)
unfolding add_recursive
add_recursive-le-limit accepts root none w l h = (h, refl)
add_recursive-le-limit accepts root (some tree) w l h =
    let start = record w { watches = length w.watch_list } in
    let c : IsCounted w.watch_limit w.watch_list start = record {
      limit_is = refl;
      known_count = refl;
      watched_count = refl;
      same = λ p. refl;
      below = h;
    } in
    let out = add_watch accepts root w.watch_list start in
    let added = add_watch-IsCounted w.watch_limit accepts root w.watch_list start l c in
    elim (Bool-cases out.0) [
      | inl a ↦ rw a (
          counted_bound w.watch_limit _ _ (
            add_below-IsCounted w.watch_limit accepts (trim_suffix root (text "/") ++ text "/") tree
              out.1 l added))
      | inr a ↦ rw a (counted_bound w.watch_limit _ _ added)
    ]
