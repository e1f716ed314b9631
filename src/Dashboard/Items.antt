-- ===== src/Dashboard/Items.antt =====
-- The stories as a map from links, and the order in which they are held.
use emp_apps.Base.{
  ℕ, ◌≡◌, refl, ap, ◌∙◌, Bool, true, false, not, ◌||◌, List, [], ◌∷◌, ◌++◌, Option, none, some,
  arith, inl, inr, ◌==◌, ==_refl, list_eq, nat_eq, option_eq, if◌then◌else◌, Bool-cases, filter,
  filter_none, find, contains, contains-append, contains-filter, IsDistinct, IsDistinct-append,
  IsDistinct-filter, All, All-filter, All-map_of_imp, map-append, map-filter,
}
use emp_apps.Base.Text.{Text}
use emp_apps.Client.Laws.{or_option}
use emp_apps.Feeds.{Item}
use emp_apps.Dashboard.{links, merge_items}

-- The story that is held under a link.
abbrev pub story : Option Text → List Item → Option Item
story link items = find (λ item. item.link == link) items

story_of_absent :
    (k : Option Text) (items : List Item) → contains (links items) k ≡ false → story k items ≡ none
story_of_absent k [] h = refl
story_of_absent k (i ∷ is) h = ground (arith, story_of_absent k is)

story_of_present :
    (k : Option Text) (items : List Item)
    → contains (links items) k ≡ true
    → (i : Item) × (story k items ≡ some i)
story_of_present k [] h = absurd (ground arith)
story_of_present k (i ∷ is) h = elim (Bool-cases (i.link == k)) [
  | inl e ↦ (i, rw e)
  | inr e ↦ let (j, f) = story_of_present k is (ground arith) in (j, rw e f)
]

story-append :
    (k : Option Text) (xs ys : List Item) → story k (xs ++ ys) ≡ or_option (story k xs) (story k ys)
story-append k [] ys = refl
story-append k (x ∷ xs) ys = elim (Bool-cases (x.link == k)) [
  | inl e ↦ rw e
  | inr e ↦ rw e (story-append k xs ys)
]

-- A filter by the link alone.
story-filter :
    (p : Option Text → Bool) (k : Option Text) (items : List Item)
    → story k (filter (λ item. p item.link) items) ≡ (if p k then story k items else none)
story-filter p k [] = ground arith
story-filter p k (i ∷ is) =
    ground (arith, story-filter p k is, (option_eq ⦃e = list_eq {A = ℕ}⦄).same_iff i.link k)

-- Merging refines the left union of two maps from links to stories: a link that is held keeps its
-- story, and every other link gets the first story that the message has for it.
pub story-merge_items :
    (k : Option Text) (items prev : List Item)
    → story k (merge_items items prev) ≡ or_option (story k prev) (story k items)
unfolding merge_items
story-merge_items k items prev =
    story-append k (filter (λ item. not (contains (links prev) item.link)) items) prev
    ∙ rw (story-filter (λ l. not (contains (links prev) l)) k items)
        (elim (Bool-cases (contains (links prev) k)) [
          | inl e ↦ let (i, f) = story_of_present k prev e in rw (e, f)
          | inr e ↦ rw (e, story_of_absent k prev e) (or_none (story k items))
        ])
  where
    or_none : (o : Option Item) → or_option o none ≡ o
    or_none none = refl
    or_none (some i) = refl

abbrev fresh : List Item → Option Text → Bool
fresh prev l = not (contains (links prev) l)

links-merge_items :
    (items prev : List Item)
    → links (merge_items items prev) ≡ filter (fresh prev) (links items) ++ links prev
unfolding merge_items
links-merge_items items prev =
    map-append (λ (item : Item). item.link) (filter (λ item. fresh prev item.link) items) prev
    ∙ ap (λ ls. ls ++ links prev) (map-filter (λ item. item.link) (fresh prev) items)

contains-merge_items :
    (items prev : List Item) (l : Option Text)
    → contains (links (merge_items items prev)) l
      ≡ (contains (links items) l || contains (links prev) l)
contains-merge_items items prev l = rw links-merge_items (
    ground (
      arith,
      contains-append (filter (fresh prev) (links items)) (links prev) l,
      contains-filter (fresh prev) (links items) l,
    ))

held_items : (items : List Item) → All (λ item. contains (links items) item.link ≡ true) items
held_items [] = tt
held_items (i ∷ is) = (
  rw (==_refl i.link),
  All-map_of_imp (λ x. contains (links is) x.link ≡ true)
      (λ x. contains (links (i ∷ is)) x.link ≡ true) is (λ x h. ground arith) (held_items is),
)

-- Merging the same stories twice in a row is merging them once.
pub merge_items-merge_items :
    (items prev : List Item) → merge_items items (merge_items items prev) ≡ merge_items items prev
merge_items-merge_items items prev =
    unfold merge_items in
    ap (λ xs. xs ++ merge_items items prev)
      (filter_none (λ item. fresh (merge_items items prev) item.link) items
        (All-map_of_imp (λ x. contains (links items) x.link ≡ true)
          (λ x. fresh (merge_items items prev) x.link ≡ false) items
          (λ x h. ground (arith, contains-merge_items items prev x.link)) (held_items items)))

-- If the links of the held stories differ from one another, and those of the message's stories do, then
-- the links of the merged stories differ from one another.
pub IsDistinct-merge_items :
    (items prev : List Item)
    → IsDistinct (links items)
    → IsDistinct (links prev)
    → IsDistinct (links (merge_items items prev))
IsDistinct-merge_items items prev h k = rw links-merge_items (
    IsDistinct-append (filter (fresh prev) (links items)) (links prev)
      (IsDistinct-filter (fresh prev) (links items) h) k
      (All-map_of_imp (λ l. fresh prev l ≡ true) (λ l. contains (links prev) l ≡ false)
        (filter (fresh prev) (links items)) (λ l e. ground arith)
        (All-filter (fresh prev) (links items))))

-- The stories that are held stay, in their order, behind the new ones.
pub merge_items-keeps :
    (items prev : List Item)
    → (new : List Item) × (merge_items items prev ≡ new ++ prev)
      × All (λ item. contains (links prev) item.link ≡ false) new
unfolding merge_items
merge_items-keeps items prev = (
  filter (λ item. fresh prev item.link) items,
  refl,
  All-map_of_imp (λ (x : Item). fresh prev x.link ≡ true)
      (λ x. contains (links prev) x.link ≡ false) (filter (λ item. fresh prev item.link) items)
      (λ x e. ground arith) (All-filter (λ item. fresh prev item.link) items),
)
