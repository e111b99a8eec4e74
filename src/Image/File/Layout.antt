-- ===== src/Image/File/Layout.antt =====
-- `KImage_Finish`: the map items that it appends say where `KImage_Write_File` puts the items of each type.
use koala_lang_pre.Prelude.{
  ◌==◌, if◌then◌else◌, Bool-cases, length, length-append, ℕ, ◌+◌, ◌<◌, ◌≡◌, refl, sym, ap, ◌∙◌, inl,
  inr, true, false, List, [], ◌∷◌, ◌++◌, arith,
}
use koala_lang_pre.AtomTable.{vector, size, push}
use koala_lang_pre.AtomTable.Laws.{vector-push}
use koala_lang_pre.Image.{Table, item_max}
use koala_lang_pre.Image.Items.{Item}
use koala_lang_pre.Image.Appends.{length-push}
use koala_lang_pre.Image.Format.{item_bytes}
use koala_lang_pre.Image.Format.RoundTrip.{length-item_bytes}
use koala_lang_pre.Image.File.{item_map, items_bytes, image_bytes, lengths, lay_out, lay_out_type}
use koala_lang_pre.Image.File.Input.{MapItem, append_maps}

-- The map items of a table whose items of these types begin at the position `p`.
unfoldable pub maps_at : Table → List ℕ → ℕ → List MapItem
maps_at t [] p = []
maps_at t (type ∷ types) p =
    let rest = maps_at t types p in
    let after = maps_at t types (p + lengths (vector t type)) in
    if size t type == 0 then rest else (type, p, size t type) ∷ after

pub length-items_bytes : (ds : List Item) → length (items_bytes ds) ≡ lengths ds
unfolding items_bytes lengths
length-items_bytes [] = refl
length-items_bytes (d ∷ ds) = omega (
  arith,
  length-append (item_bytes d) (items_bytes ds),
  length-item_bytes d,
  length-items_bytes ds,
)

abbrev pub AllTypes : List ℕ → Type 0
AllTypes [] = Unit {0}
AllTypes (type ∷ types) = (0 < type) × (type < item_max) × AllTypes types

-- Tables with the same vectors of all types but `ITEM_MAP`.
abbrev pub Agree : Table → Table → Type 0
Agree t u = (type : ℕ) → 0 < type → vector t type ≡ vector u type

pub maps_at-Agree :
    (t u : Table) (types : List ℕ) (p : ℕ)
    → Agree t u
    → AllTypes types
    → maps_at t types p ≡ maps_at u types p
unfolding maps_at size
maps_at-Agree t u [] p same all = refl
maps_at-Agree t u (type ∷ types) p same (lo, hi, all) =
    rw
      (
        same type lo,
        maps_at-Agree t u types p same all,
        maps_at-Agree t u types (p + lengths (vector u type)) same all,
      )
      refl

pub image_bytes-Agree :
    (t u : Table) (types : List ℕ)
    → Agree t u
    → AllTypes types
    → image_bytes t types ≡ image_bytes u types
unfolding image_bytes size
image_bytes-Agree t u [] same all = refl
image_bytes-Agree t u (type ∷ types) same (lo, hi, all) =
    rw (same type lo, image_bytes-Agree t u types same all) refl

push-Agree : (t : Table) (d : Item) → length t.items ≡ item_max → Agree (push t item_map d) t
push-Agree t d wide type lo =
    let differ : (item_map == type) ≡ false = ground arith in
    vector-push t item_map d type (omega (arith, wide)) ∙ rw differ refl

pub append_maps-Agree :
    (maps : List MapItem) (t : Table) → length t.items ≡ item_max → Agree (append_maps maps t) t
unfolding append_maps
append_maps-Agree [] t wide type lo = refl
append_maps-Agree ((k, o, s) ∷ maps) t wide type lo =
    append_maps-Agree maps (push t item_map (Item.map k o s)) (length-push t item_map _ ∙ wide) type
      lo
    ∙ push-Agree t (Item.map k o s) wide type lo

-- A type without items is passed over.
module _ (t : Table) (type : ℕ) (types : List ℕ) (e : (size t type == 0) ≡ true) where
  lay_out-empty : (o l : ℕ) → lay_out (type ∷ types) (t, o, l) ≡ lay_out types (t, o, l)
  unfolding lay_out
  lay_out-empty o l =
      let step : lay_out_type type (t, o, l) ≡ (t, o, l) = rw e refl in ap (lay_out types) step

  pub maps_at-empty : (p : ℕ) → maps_at t (type ∷ types) p ≡ maps_at t types p
  unfolding maps_at
  maps_at-empty p = rw e refl

  pub image_bytes-empty : image_bytes t (type ∷ types) ≡ image_bytes t types
  unfolding image_bytes
  image_bytes-empty = rw e refl

-- The items of a type are written where its map item says.
module _ (t : Table) (type : ℕ) (types : List ℕ) (e : (size t type == 0) ≡ false) where
  abbrev map_of : ℕ → Item
  map_of p = Item.map type p (size t type)

  lay_out-full :
      (o l : ℕ)
      → lay_out (type ∷ types) (t, o, l)
        ≡ lay_out types (push t item_map (map_of (o + l)), o + l, lengths (vector t type))
  unfolding lay_out
  lay_out-full o l =
      let step : lay_out_type type (t, o, l)
          ≡ (push t item_map (map_of (o + l)), o + l, lengths (vector t type)) =
        rw e refl in
      ap (lay_out types) step

  pub maps_at-full :
      (p : ℕ)
      → maps_at t (type ∷ types) p
        ≡ (type, p, size t type) ∷ maps_at t types (p + lengths (vector t type))
  unfolding maps_at
  maps_at-full p = rw e refl

  pub image_bytes-full :
      image_bytes t (type ∷ types) ≡ items_bytes (vector t type) ++ image_bytes t types
  unfolding image_bytes
  image_bytes-full = rw e refl

  pub length-image_bytes :
      length (image_bytes t (type ∷ types)) ≡ lengths (vector t type) + length (image_bytes t types)
  length-image_bytes =
      ap length image_bytes-full
      ∙ length-append (items_bytes (vector t type)) (image_bytes t types)
      ∙ ap (λ (m : ℕ). m + length (image_bytes t types)) (length-items_bytes (vector t type))

-- The outcome of the second loop, from the position at which it begins.
pub lay_out-maps_at :
    (types : List ℕ) (t : Table) (o l : ℕ)
    → length t.items ≡ item_max
    → AllTypes types
    → ((lay_out types (t, o, l)).0 ≡ append_maps (maps_at t types (o + l)) t)
      × ((lay_out types (t, o, l)).1 + (lay_out types (t, o, l)).2
          ≡ o + l + length (image_bytes t types))
unfolding lay_out maps_at append_maps image_bytes
lay_out-maps_at [] t o l wide all = (refl, omega arith)
lay_out-maps_at (type ∷ types) t o l wide (lo, hi, all) = elim (Bool-cases (size t type == 0)) [
  | inl e ↦
      let (a, b) = lay_out-maps_at types t o l wide all in
      let step = lay_out-empty t type types e o l in
      (
        ap (λ (r : Table × ℕ × ℕ). r.0) step
            ∙ a
            ∙ ap (λ (maps : List MapItem). append_maps maps t)
                (sym (maps_at-empty t type types e (o + l))),
        ap (λ (r : Table × ℕ × ℕ). r.1 + r.2) step
            ∙ b
            ∙ ap (λ (bytes : List ℕ). o + l + length bytes)
                (sym (image_bytes-empty t type types e)),
      )
  | inr e ↦
      let d : Item = Item.map type (o + l) (size t type) in
      let n = lengths (vector t type) in
      let same = push-Agree t d wide in
      let (a, b) =
        lay_out-maps_at types (push t item_map d) (o + l) n (length-push t item_map d ∙ wide) all in
      let step = lay_out-full t type types e o l in
      let c : length (image_bytes (push t item_map d) types) ≡ length (image_bytes t types) =
        ap length (image_bytes-Agree (push t item_map d) t types same all) in
      (
        ap (λ (r : Table × ℕ × ℕ). r.0) step
            ∙ a
            ∙ ap (λ (maps : List MapItem). append_maps maps (push t item_map d))
                (maps_at-Agree (push t item_map d) t types (o + l + n) same all)
            ∙ ap (λ (maps : List MapItem). append_maps maps t)
                (sym (maps_at-full t type types e (o + l))),
        ap (λ (r : Table × ℕ × ℕ). r.1 + r.2) step
            ∙ b
            ∙ omega (arith, c, length-image_bytes t type types e),
      )
]
