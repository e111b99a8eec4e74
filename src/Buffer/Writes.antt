-- ===== src/Buffer/Writes.antt =====
-- A write adds its bytes at the end of the buffer, whatever the blocks.
use koala_lang_pre.Prelude.{
  ltb, leb, to_nat, if_ind, length, take, drop, replicate, length-append, length-replicate,
  length-take, length-drop, take-append-drop, take-append, ℕ, zero, suc, ◌+◌, ◌-◌, ◌*◌, ◌≤◌, ◌<◌,
  min, ◌≡◌, refl, sym, ap, ◌∙◌, ◌&&◌, Option, none, some, List, [], ◌∷◌, ◌++◌, append_assoc,
  append-nil, arith,
}
use koala_lang_pre.Buffer.{Buffer, left, fill, add_block, put, write, join, align, raw_data}

-- Every block but the last is full, and none is above its size.
abbrev pub IsPacked : ℕ → List (List ℕ) → Type 0
IsPacked bsize [] = Unit {0}
IsPacked bsize (b ∷ []) = length b ≤ bsize
IsPacked bsize (b ∷ c ∷ bs) = (length b ≡ bsize) × IsPacked bsize (c ∷ bs)

pub record IsValid (buf : Buffer) : Type 0 where
  pub sized : buf.size ≡ length (join buf.head)
  pub counted : buf.blocks ≡ length buf.head
  pub packed : IsPacked buf.bsize buf.head

join-add : (bs : List (List ℕ)) → join (bs ++ [] ∷ []) ≡ join bs
unfolding join
join-add [] = refl
join-add (b ∷ bs) = ap (λ (s : List ℕ). b ++ s) (join-add bs)

left-add : (bsize : ℕ) (bs : List (List ℕ)) → left bsize (bs ++ [] ∷ []) ≡ bsize
unfolding left
left-add bsize [] = omega arith
left-add bsize (b ∷ []) = omega arith
left-add bsize (b ∷ c ∷ bs) = left-add bsize (c ∷ bs)

IsPacked-add :
    (bsize : ℕ) (bs : List (List ℕ))
    → IsPacked bsize bs
    → left bsize bs ≡ 0
    → IsPacked bsize (bs ++ [] ∷ [])
unfolding left
IsPacked-add bsize [] p h = omega arith
IsPacked-add bsize (b ∷ []) p h = (omega arith, omega arith)
IsPacked-add bsize (b ∷ c ∷ bs) p h = (p.0, IsPacked-add bsize (c ∷ bs) p.1 h)

join-fill :
    (bsize : ℕ) (bytes : List ℕ) (bs : List (List ℕ))
    → 0 < left bsize bs
    → join (fill bytes bs) ≡ join bs ++ bytes
unfolding join fill left
join-fill bsize bytes [] h = absurd (omega arith)
join-fill bsize bytes (b ∷ []) h = simp (append_assoc, append-nil)
join-fill bsize bytes (b ∷ c ∷ bs) h =
    ap (λ (s : List ℕ). b ++ s) (join-fill bsize bytes (c ∷ bs) h)
    ∙ sym (append_assoc b (join (c ∷ bs)) bytes)

length-fill : (bytes : List ℕ) (bs : List (List ℕ)) → length (fill bytes bs) ≡ length bs
unfolding fill
length-fill bytes [] = refl
length-fill bytes (b ∷ []) = refl
length-fill bytes (b ∷ c ∷ bs) = omega (arith, length-fill bytes (c ∷ bs))

IsPacked-fill :
    (bsize : ℕ) (bytes : List ℕ) (bs : List (List ℕ))
    → IsPacked bsize bs
    → length bytes ≤ left bsize bs
    → IsPacked bsize (fill bytes bs)
unfolding left fill
IsPacked-fill bsize bytes [] p h = tt
IsPacked-fill bsize bytes (b ∷ []) p h = omega (arith, length-append {0} b bytes)
IsPacked-fill bsize bytes (b ∷ c ∷ []) p h = (p.0, IsPacked-fill bsize bytes (c ∷ []) p.1 h)
IsPacked-fill bsize bytes (b ∷ c ∷ d ∷ bs) p h = (p.0, IsPacked-fill bsize bytes (c ∷ d ∷ bs) p.1 h)

add_block-IsValid :
    (buf : Buffer) → IsValid buf → left buf.bsize buf.head ≡ 0 → IsValid (add_block buf)
unfolding add_block
add_block-IsValid buf v h = record {
  sized = v.sized ∙ ap (length {0}) (sym (join-add buf.head));
  counted = omega (arith, v.counted, length-append {0} {A = List ℕ} buf.head ([] ∷ []));
  packed = IsPacked-add buf.bsize buf.head v.packed h;
}

put-IsValid :
    (buf : Buffer) (bytes : List ℕ)
    → IsValid buf
    → 0 < left buf.bsize buf.head
    → length bytes ≤ left buf.bsize buf.head
    → IsValid (put buf bytes)
unfolding put
put-IsValid buf bytes v h k = record {
  sized = omega (
    arith,
    v.sized,
    ap (length {0}) (join-fill buf.bsize bytes buf.head h),
    length-append {0} (join buf.head) bytes,
  );
  counted = v.counted ∙ sym (length-fill bytes buf.head);
  packed = IsPacked-fill buf.bsize bytes buf.head v.packed k;
}

-- The result of writing `bytes`: a valid buffer with the same block size that holds `bytes` behind what it
-- held.
pub record Writes (buf : Buffer) (bytes : List ℕ) (r : Option Buffer) : Type 0 where
  pub after : Buffer
  pub returns : r ≡ some after
  pub valid : IsValid after
  pub same_bsize : after.bsize ≡ buf.bsize
  pub holds : join after.head ≡ join buf.head ++ bytes

Writes-add :
    (buf : Buffer) (bytes : List ℕ) (r : Option Buffer)
    → Writes (add_block buf) bytes r
    → Writes buf bytes r
unfolding add_block
Writes-add buf bytes r w = record {
  after = w.after;
  returns = w.returns;
  valid = w.valid;
  same_bsize = w.same_bsize;
  holds = w.holds ∙ ap (λ (s : List ℕ). s ++ bytes) (join-add buf.head);
}

Writes-put :
    (buf : Buffer) (n : ℕ) (bytes : List ℕ) (r : Option Buffer)
    → 0 < left buf.bsize buf.head
    → Writes (put buf (take n bytes)) (drop n bytes) r
    → Writes buf bytes r
unfolding put
Writes-put buf n bytes r h w = record {
  after = w.after;
  returns = w.returns;
  valid = w.valid;
  same_bsize = w.same_bsize;
  holds =
      w.holds
      ∙ ap (λ (s : List ℕ). s ++ drop n bytes) (join-fill buf.bsize (take n bytes) buf.head h)
      ∙ append_assoc (join buf.head) (take n bytes) (drop n bytes)
      ∙ ap (λ (s : List ℕ). join buf.head ++ s) (take-append-drop n bytes);
}

left_after_add : (buf : Buffer) → left (add_block buf).bsize (add_block buf).head ≡ buf.bsize
unfolding add_block
left_after_add buf = left-add buf.bsize buf.head

write-Writes_at :
    (f : ℕ) (buf : Buffer) (bytes : List ℕ)
    → 0 < buf.bsize
    → IsValid buf
    → 2 * length bytes < f + to_nat (ltb 0 (left buf.bsize buf.head) && ltb 0 (length bytes))
    → Writes buf bytes (write f buf bytes)
unfolding write add_block put
write-Writes_at zero buf [] h v fuel = absurd (ground arith)
write-Writes_at zero buf (c ∷ bytes) h v fuel = absurd (ground arith)
write-Writes_at (suc f) buf [] h v fuel = record {
  after = buf;
  returns = refl;
  valid = v;
  same_bsize = refl;
  holds = sym (append-nil _);
}
write-Writes_at (suc f) buf (c ∷ bytes) h v fuel =
    let room = left buf.bsize buf.head in
    let sz = min room (length (c ∷ bytes)) in
    if_ind (Writes buf (c ∷ bytes)) (leb room 0)
      (λ full.
        let none_left : left buf.bsize buf.head ≡ 0 = ground arith in
        let less : 2 * suc (length bytes) < f + 1 = ground arith in
        Writes-add buf (c ∷ bytes) _ (
          write-Writes_at f (add_block buf) (c ∷ bytes) h (add_block-IsValid buf v none_left)
            (ground (arith, left_after_add buf))))
      (λ some_left.
        let positive : 0 < left buf.bsize buf.head = ground arith in
        let fits : length (take sz (c ∷ bytes)) ≡ sz =
          length-take {0} sz (c ∷ bytes) (omega arith) in
        let rest : length (drop sz (c ∷ bytes)) ≡ suc (length bytes) - sz =
          length-drop {0} sz (c ∷ bytes) in
        let most : 2 * suc (length bytes) < suc f + 1 = ground arith in
        let at_most : length (take sz (c ∷ bytes)) ≤ left buf.bsize buf.head = omega arith in
        let enough : 2 * length (drop sz (c ∷ bytes)) < f = omega arith in
        Writes-put buf sz (c ∷ bytes) _ positive (
          write-Writes_at f (put buf (take sz (c ∷ bytes))) (drop sz (c ∷ bytes)) h
            (put-IsValid buf (take sz (c ∷ bytes)) v positive at_most) (omega arith)))

-- With blocks of at least one byte and fuel above twice the number of bytes, a write into a valid buffer
-- returns a valid buffer that holds the bytes behind those it held.
pub write-Writes :
    (f : ℕ) (buf : Buffer) (bytes : List ℕ)
    → 0 < buf.bsize
    → IsValid buf
    → 2 * length bytes < f
    → Writes buf bytes (write f buf bytes)
write-Writes f buf bytes h v fuel = write-Writes_at f buf bytes h v (omega arith)

-- What is copied out of a valid buffer is what it holds, followed by fewer than four zeros, up to a
-- multiple of four.
pub raw_data-IsValid :
    (buf : Buffer)
    → IsValid buf
    → (take buf.size (raw_data buf) ≡ join buf.head)
      × (length (raw_data buf) ≡ align buf.size)
      × (align buf.size < buf.size + 4)
unfolding raw_data
raw_data-IsValid buf v = (
  rw v.sized (take-append (join buf.head) _ (length (join buf.head)) refl),
  omega (
    arith,
    v.sized,
    length-append {0} (join buf.head) (replicate (align buf.size - length (join buf.head)) 0),
    length-replicate {A = ℕ} (align buf.size - length (join buf.head)) 0,
  ),
  omega arith,
)

-- With blocks of no bytes, a write of at least one byte into a buffer with no room left does not return,
-- however much fuel it gets.
pub write_lem :
    (f : ℕ) (buf : Buffer) (c : ℕ) (bytes : List ℕ)
    → buf.bsize ≡ 0
    → left buf.bsize buf.head ≡ 0
    → write f buf (c ∷ bytes) ≡ none
unfolding write add_block
write_lem zero buf c bytes h k = refl
write_lem (suc f) buf c bytes h k =
    let again = write_lem f (add_block buf) c bytes h (left_after_add buf ∙ h) in ground arith
