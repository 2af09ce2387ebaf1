-- ===== src/Pagination/Traverse.antt =====
-- Walking through the pages of FindAll (event_operational_repo.go) by their cursors.
use mathlib.Core.List.{append_assoc, append-nil}
use energy_plant_monitoring.Base.{
  String, ℕ, zero, suc, ◌+◌, ◌-◌, ◌≤◌, ◌<◌, ◌≡◌, refl, sym, ◌∙◌, ap, Option, none, some, List, [],
  ◌∷◌, ◌++◌, arith, length, take, drop, keep, ltb, subst, Bool-cases, inl, inr, ltb→lt,
  take-append-drop, length-take, length-keep, take_all,
}
use energy_plant_monitoring.Entities.{EventOperational}
use energy_plant_monitoring.Pagination.Sorted.{cursor_of, IsSorted, keep-after, IsSorted-keep}
use energy_plant_monitoring.Pagination.Cursor.{RoundTrips, decode_cursor-encode_cursor}
use energy_plant_monitoring.Pagination.{
  Text, ℤ, pos, bar, PageCursor, Codec, encode_cursor, decode_cursor, is_below, select, last?,
  max_page_size, negsuc, normal_limit, page_of, find_all, find_by_event_type, is_of_type, PageQuery,
  Page,
}

-- a list that is not empty ends in its last element
abbrev init : List EventOperational → List EventOperational
init [] = []
init (x ∷ []) = []
init (x ∷ y ∷ rest) = x ∷ init (y ∷ rest)

last-init :
    (x : EventOperational) (xs : List EventOperational)
    → (l : EventOperational) × (last? (x ∷ xs) ≡ some l) × (x ∷ xs ≡ init (x ∷ xs) ++ l ∷ [])
last-init x [] = (x, refl, refl)
last-init x (y ∷ rest) = let (l, e, s) = last-init y rest in (l, e, ap (λ t. x ∷ t) s)

take-take : (n m : ℕ) (xs : List EventOperational) → n ≤ m → take n (take m xs) ≡ take n xs
take-take zero m xs h = refl
take-take (suc n) zero xs h = absurd (omega arith)
take-take (suc n) (suc m) [] h = refl
take-take (suc n) (suc m) (x ∷ xs) h = ap (λ t. x ∷ t) (take-take n m xs (omega arith))

length-drop : (n : ℕ) (xs : List EventOperational) → length (drop n xs) ≡ length xs - n
length-drop zero xs = omega arith
length-drop (suc n) [] = omega arith
length-drop (suc n) (x ∷ xs) = omega (arith, length-drop n xs)

-- what a client does with a cursor that is not empty
abbrev pub follow :
    Codec → (Option PageCursor → List EventOperational) → Text → List EventOperational
follow codec go [] = []
follow codec go (c ∷ s) = elim (decode_cursor codec (c ∷ s)) [ none ↦ [] | some k ↦ go (some k) ]

-- Follows the cursors from page to page, a number of pages at most, and collects their rows.
module _ (codec : Codec) (fetch : PageQuery → Page) (limit : ℤ) where
  unfoldable pub walk : ℕ → Option PageCursor → List EventOperational
  walk zero cursor = []
  walk (suc pages) cursor =
      let p = fetch (record { limit = limit; cursor = cursor }) in
      p.items ++ follow codec (walk pages) p.next_cursor

pub record Decodes (codec : Codec) : Type 0 where
  pub trip : (t : ℕ) → RoundTrips codec t
  pub filled : (s : Text) → codec.base64_encode s ≡ [] → s ≡ []

module _ (codec : Codec) (rows : List EventOperational) (limit : ℤ) where
  abbrev walk_rows : ℕ → Option PageCursor → List EventOperational
  walk_rows = walk codec (find_all codec rows) limit

  walk_page :
      (pages : ℕ) (cursor : Option PageCursor)
      → let p =
          page_of codec (normal_limit limit) (take (normal_limit limit + 1) (select cursor rows)) in
        walk_rows (suc pages) cursor ≡ p.items ++ follow codec (walk_rows pages) p.next_cursor
  unfolding walk find_all
  walk_page pages cursor = refl

  bar_not_end : (s t : Text) → ¬ (s ++ (bar ∷ t) ≡ [])
  bar_not_end [] t = λ e. cc
  bar_not_end (c ∷ s) t = λ e. cc

  follow_encoded :
      (laws : Decodes codec) (go : Option PageCursor → List EventOperational) (l : EventOperational)
      → follow codec go (encode_cursor codec l.created_at l.id) ≡ go (some (cursor_of l))
  unfolding encode_cursor
  follow_encoded laws go l = from (encode_cursor codec l.created_at l.id) refl
    where
      from :
          (s : Text)
          → encode_cursor codec l.created_at l.id ≡ s
          → follow codec go s ≡ go (some (cursor_of l))
      from [] e = absurd (bar_not_end _ _ (laws.filled _ e))
      from (c ∷ s) e =
          ground
            (arith, decode_cursor-encode_cursor codec l.created_at l.id (laws.trip l.created_at))

  -- the page that shows part of `rest`
  page_more :
      (n : ℕ) (rest : List EventOperational)
      → suc n < length rest
      → (l : EventOperational) × (front : List EventOperational) × (take (suc n) rest
          ≡ front ++ l ∷ [])
        × ((page_of codec (suc n) (take (suc n + 1) rest)).items ≡ take (suc n) rest)
        × ((page_of codec (suc n) (take (suc n + 1) rest)).next_cursor
            ≡ encode_cursor codec l.created_at l.id)
  unfolding page_of
  page_more n [] more = absurd (omega arith)
  page_more n (x ∷ xs) more =
      let (l, ends, splits) = last-init x (take n xs) in
      let shown = take-take (suc n) (suc n + 1) (x ∷ xs) (omega arith) in
      let read = length-take (suc n + 1) (x ∷ xs) in
      (
        l,
        init (x ∷ take n xs),
        splits,
        ground (arith, shown, read),
        ground (arith, shown, read, ends),
      )

  page_last :
      (n : ℕ) (rest : List EventOperational)
      → length rest ≤ n
      → ((page_of codec n (take (n + 1) rest)).items ≡ rest)
        × ((page_of codec n (take (n + 1) rest)).next_cursor ≡ [])
  unfolding page_of
  page_last n rest small = ground (arith, take_all (n + 1) rest, length-take (n + 1) rest)

  at_least_one : (l : ℤ) → (n : ℕ) × (normal_limit l ≡ suc n)
  unfolding normal_limit
  at_least_one (pos zero) = (49, refl)
  at_least_one (pos (suc n)) = elim (Bool-cases (ltb max_page_size (suc n))) [
    | inl e ↦ (199, rw e refl)
    | inr e ↦ (n, rw e refl)
  ]
  at_least_one (negsuc n) = (49, refl)

  -- from a page on, where the cursor selects what is left of the rows
  walk_rest :
      (laws : Decodes codec) (n : ℕ) (pages : ℕ) (cursor : Option PageCursor)
      (done rest : List EventOperational)
      → normal_limit limit ≡ suc n
      → IsSorted rows
      → rows ≡ done ++ rest
      → select cursor rows ≡ rest
      → length rest < pages
      → walk_rows pages cursor ≡ rest
  walk_rest laws n zero cursor done rest size sorted parts selected enough = absurd (omega arith)
  walk_rest laws n (suc pages) cursor done rest size sorted parts selected enough =
      let page = page_of codec (suc n) (take (suc n + 1) rest) in
      let first : walk_rows (suc pages) cursor
          ≡ page.items ++ follow codec (walk_rows pages) page.next_cursor =
        ground (arith, walk_page pages cursor) in
      elim (Bool-cases (ltb (suc n) (length rest))) [
        | inr small ↦
            let (shown, ends) = page_last (suc n) rest (ground arith) in
            ground (arith, append-nil rest)
        | inl more ↦
            let (l, front, splits, shown, next) = page_more n rest (ltb→lt _ _ more) in
            let after = drop (suc n) rest in
            let rejoined = take-append-drop (suc n) rest in
            let joined : rows ≡ (done ++ take (suc n) rest) ++ after =
              parts
              ∙ ap (λ t. done ++ t) (sym rejoined)
              ∙ sym (append_assoc done (take (suc n) rest) after) in
            let parted : rows ≡ (done ++ front) ++ (l ∷ after) = ground (
              arith,
              append_assoc done front (l ∷ []),
              append_assoc (done ++ front) (l ∷ []) after,
            ) in
            let below : keep (is_below (cursor_of l)) rows ≡ after =
              subst (λ r. keep (is_below (cursor_of l)) r ≡ after) (sym parted)
                (keep-after (done ++ front) l after (subst IsSorted parted sorted)) in
            let later =
              walk_rest laws n pages (some (cursor_of l)) (done ++ take (suc n) rest) after size
                sorted joined below (omega (arith, length-drop (suc n) rest, ltb→lt _ _ more)) in
            ground (arith, follow_encoded laws (walk_rows pages) l)
      ]

  -- A client that asks for the first page and then follows the cursors until a page has none
  -- receives every row exactly once, in the order of the table, whatever limit it asks for; one page
  -- more than there are rows is always enough. The table is sorted newest first, with the ids
  -- descending among rows of one time, and the codecs can be read back.
  pub walk_visits_all : Decodes codec → IsSorted rows → walk_rows (suc (length rows)) none ≡ rows
  walk_visits_all laws sorted =
      let (n, size) = at_least_one limit in
      walk_rest laws n (suc (length rows)) none [] rows size sorted refl refl (omega arith)

-- The same of the pages of one type: with a cursor from page to page a client receives every row of
-- that type exactly once, in the order of the table, and no other row.
walk_visits_type :
    (codec : Codec) (rows : List EventOperational) (event_type : String) (limit : ℤ)
    → Decodes codec
    → IsSorted rows
    → walk codec (find_by_event_type codec rows event_type) limit (suc (length rows)) none
      ≡ keep (is_of_type event_type) rows
unfolding find_by_event_type find_all
walk_visits_type codec rows event_type limit laws sorted =
    let typed = keep (is_of_type event_type) rows in
    let (n, size) = at_least_one codec typed limit limit in
    walk_rest codec typed limit laws n (suc (length rows)) none [] typed size
      (IsSorted-keep (is_of_type event_type) rows sorted) refl refl
      (omega (arith, length-keep (is_of_type event_type) rows))
