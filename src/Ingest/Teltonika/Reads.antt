-- ===== src/Ingest/Teltonika/Reads.antt =====
-- Each part of a frame is read where it stands (src/minemonitor/ingest/adapters/teltonika.py).
use mine_intelligence.Ingest.Teltonika.Format.{
  EntriesFit, Fits, InRange, Report, ValuesFit, put_entries, put_io, put_size, put_values,
  put_variable, record_of, set_all, total, word,
}
use mine_intelligence.Prelude.{
  All, Bool, List, [], arith, drop, drop-append, false, if◌then◌else◌, length, negsuc, pos, refl,
  suc, sym, take, true, zero, ℕ, ℤ, ◌%◌, ◌*◌, ◌++◌, ◌+◌, ◌/◌, ◌<◌, ◌^◌, ◌∙◌, ◌∷◌, ◌≡◌,
}
use mine_intelligence.Ingest.Teltonika.{
  from_big, parse_io, read_sizes, read_values, s, set_io, signed, skip_entries, to_big, u, width,
}
use native.Mathlib.Nat.{div-add-mod, mod-lt, zero-add}

drop-nil {ℓ} : {A : Type ℓ} (n : ℕ) → drop {A = A} n [] ≡ []
drop-nil zero = refl
drop-nil (suc n) = refl

pub drop-add {ℓ} : {A : Type ℓ} (m n : ℕ) (xs : List A) → drop (m + n) xs ≡ drop n (drop m xs)
drop-add zero n xs = rw (zero-add n) refl
drop-add (suc m) n [] = drop-nil (suc m + n) ∙ sym (drop-nil n)
drop-add (suc m) n (x ∷ xs) =
    let e : suc m + n ≡ suc (m + n) = omega arith in rw e (drop-add m n xs)

pow_pos : (n : ℕ) → 0 < 256 ^ n
pow_pos zero = omega arith
pow_pos (suc n) = grind (arith, pow_pos n)

pub take-to_big : (n v : ℕ) (rest : List ℕ) → take n (to_big n v rest) ≡ to_big n v []
unfolding to_big
take-to_big zero v rest = refl
take-to_big (suc n) v rest = rw (take-to_big n (v % 256 ^ n) rest) refl

pub drop-to_big : (n v : ℕ) (rest : List ℕ) → drop n (to_big n v rest) ≡ rest
unfolding to_big
drop-to_big zero v rest = refl
drop-to_big (suc n) v rest = drop-to_big n (v % 256 ^ n) rest

digit_step :
    (p q r acc v t : ℕ) → p * q + r ≡ v → t ≡ 256 * p → (acc * 256 + q) * p + r ≡ acc * t + v
digit_step p q r acc v t d e = rw (e, ← d) (grind arith)

pub from_big-to_big : (n v acc : ℕ) → v < 256 ^ n → from_big acc (to_big n v []) ≡ acc * 256 ^ n + v
unfolding from_big to_big
from_big-to_big zero v acc h = omega arith
from_big-to_big (suc n) v acc h =
    from_big-to_big n (v % 256 ^ n) (acc * 256 + v / 256 ^ n) (mod-lt v (pow_pos n))
    ∙ digit_step (256 ^ n) (v / 256 ^ n) (v % 256 ^ n) acc v (256 ^ suc n) (div-add-mod v (256 ^ n))
        (grind arith)

-- The bytes of the field from an offset on.
abbrev pub At : List ℕ → ℕ → List ℕ → Type 0
At bytes off rest = drop off bytes ≡ rest

module _ (bytes : List ℕ) where
  -- A number where it stands is read, and what follows it comes next.
  pub u-to_big :
      (off n v : ℕ) (rest : List ℕ)
      → v < 256 ^ n
      → At bytes off (to_big n v rest)
      → (u bytes off n ≡ (v, off + n)) × At bytes (off + n) rest
  unfolding u
  u-to_big off n v rest h at =
      let value : from_big 0 (take n (drop off bytes)) ≡ v =
        rw (at, take-to_big n v rest) (from_big-to_big n v 0 h ∙ omega arith) in
      (rw value refl, drop-add off n bytes ∙ (rw at (drop-to_big n v rest)))

  read_values-put_values :
      (w size : ℕ) (vs : List (ℕ × ℕ)) (off : ℕ) (io : List (ℕ × ℕ)) (rest : List ℕ)
      → All (λ (v : ℕ × ℕ). (v.0 < 256 ^ w) × (v.1 < 256 ^ size)) vs
      → At bytes off (put_values w size vs rest)
      → ((read_values bytes w size (length vs) off io).0 ≡ set_all io vs)
        × At bytes (read_values bytes w size (length vs) off io).1 rest
  unfolding put_values read_values
  read_values-put_values w size [] off io rest fit at = (refl, at)
  read_values-put_values w size ((id, value) ∷ vs) off io rest fit at =
      let (e1, at1) =
        u-to_big off w id (to_big size value (put_values w size vs rest)) fit.0.0 at in
      let (e2, at2) = u-to_big (off + w) size value (put_values w size vs rest) fit.0.1 at1 in
      rw (read_values, e1, e2)
        (read_values-put_values w size vs (off + w + size) (set_io io id value) rest fit.1 at2)

  read_sizes-put_size :
      (w size : ℕ) (sizes : List ℕ) (vs : List (ℕ × ℕ)) (off : ℕ) (io : List (ℕ × ℕ))
      (rest : List ℕ)
      → ValuesFit w size vs
      → At bytes off (put_size w size vs rest)
      → (off' : ℕ) × (read_sizes bytes w (size ∷ sizes) off io
          ≡ read_sizes bytes w sizes off' (set_all io vs))
        × At bytes off' rest
  unfolding read_sizes
  read_sizes-put_size w size sizes vs off io rest (fit, count) at =
      let (e1, at1) = u-to_big off w (length vs) (put_values w size vs rest) count at in
      let (e2, at2) = read_values-put_values w size vs (off + w) io rest fit at1 in
      ((read_values bytes w size (length vs) (off + w) io).1, rw (e1, e2) refl, at2)

  skip_entries-put_entries :
      (es : List (ℕ × List ℕ)) (off : ℕ) (rest : List ℕ)
      → All (λ (e : ℕ × List ℕ). (e.0 < 256 ^ 2) × (length e.1 < 256 ^ 2)) es
      → At bytes off (put_entries es rest)
      → At bytes (skip_entries bytes (length es) off) rest
  unfolding skip_entries put_entries
  skip_entries-put_entries [] off rest fit at = at
  skip_entries-put_entries ((id, bs) ∷ es) off rest fit at =
      let (e1, at1) =
        u-to_big off 2 id (to_big 2 (length bs) (bs ++ put_entries es rest)) fit.0.0 at in
      let (e2, at2) = u-to_big (off + 2) 2 (length bs) (bs ++ put_entries es rest) fit.0.1 at1 in
      let at3 : At bytes (off + 2 + 2 + length bs) (put_entries es rest) =
        drop-add (off + 2 + 2) (length bs) bytes
        ∙ (rw at2 (drop-append bs (put_entries es rest))) in
      rw (skip_entries, e1, e2)
        (skip_entries-put_entries es (off + 2 + 2 + length bs) rest fit.1 at3)

  read_variable :
      (extended : Bool) (r : Report) (off : ℕ) (rest : List ℕ)
      → EntriesFit r.entries
      → At bytes off (put_variable extended r.entries rest)
      → At bytes
          (if extended then skip_entries bytes (u bytes off 2).0 (u bytes off 2).1 else off)
          rest
  read_variable true r off rest fit at =
      let (e1, at1) = u-to_big off 2 (length r.entries) (put_entries r.entries rest) fit.1 at in
      rw e1 (skip_entries-put_entries r.entries (off + 2) rest fit.0 at1)
  read_variable false r off rest fit at = at

  read_all :
      (w : ℕ) (r : Report) (off : ℕ) (rest : List ℕ)
      → ValuesFit w 1 r.io1 × ValuesFit w 2 r.io2 × ValuesFit w 4 r.io4 × ValuesFit w 8 r.io8
      → At bytes off
          (put_size w 1 r.io1 (put_size w 2 r.io2 (put_size w 4 r.io4 (put_size w 8 r.io8 rest))))
      → (off' : ℕ) × (read_sizes bytes w (1 ∷ 2 ∷ 4 ∷ 8 ∷ []) off [] ≡ ((record_of r).io, off'))
        × At bytes off' rest
  unfolding read_sizes
  read_all w r off rest (f1, f2, f4, f8) at =
      let p8 = put_size w 8 r.io8 rest in
      let p4 = put_size w 4 r.io4 p8 in
      let p2 = put_size w 2 r.io2 p4 in
      let io1 = set_all [] r.io1 in
      let io2 = set_all io1 r.io2 in
      let io4 = set_all io2 r.io4 in
      let (o1, e1, at1) = read_sizes-put_size w 1 (2 ∷ 4 ∷ 8 ∷ []) r.io1 off [] p2 f1 at in
      let (o2, e2, at2) = read_sizes-put_size w 2 (4 ∷ 8 ∷ []) r.io2 o1 io1 p4 f2 at1 in
      let (o4, e4, at4) = read_sizes-put_size w 4 (8 ∷ []) r.io4 o2 io2 p8 f4 at2 in
      let (o8, e8, at8) = read_sizes-put_size w 8 [] r.io8 o4 io4 rest f8 at4 in
      (o8, e1 ∙ (e2 ∙ (e4 ∙ e8)), at8)

  pub parse_io-put_io :
      (extended : Bool) (r : Report) (off : ℕ) (rest : List ℕ)
      → Fits extended r
      → At bytes off (put_io extended r rest)
      → (off' : ℕ) × (parse_io bytes off extended ≡ (r.event_io_id, (record_of r).io, off'))
        × At bytes off' rest
  unfolding parse_io put_io
  parse_io-put_io extended r off rest f at =
      let w = width extended in
      let v = put_variable extended r.entries rest in
      let p1 =
        put_size w 1 r.io1 (put_size w 2 r.io2 (put_size w 4 r.io4 (put_size w 8 r.io8 v))) in
      let (e1, at1) = u-to_big off w r.event_io_id (to_big w (total r % 256 ^ w) p1) f.event at in
      let (e2, at2) =
        u-to_big (off + w) w (total r % 256 ^ w) p1 (mod-lt (total r) (pow_pos w)) at1 in
      let (o8, e8, at8) =
        read_all w r (off + w + w) v (f.values1, f.values2, f.values4, f.values8) at2 in
      (
        if extended then skip_entries bytes (u bytes o8 2).0 (u bytes o8 2).1 else o8,
        rw (parse_io, e1, e2, e8) refl,
        read_variable extended r o8 rest f.variable at8,
      )

  pub s4-to_big :
      (off : ℕ) (x : ℤ) (rest : List ℕ)
      → InRange 4 x
      → At bytes off (to_big 4 (word 4 x) rest)
      → (s bytes off 4 ≡ (x, off + 4)) × At bytes (off + 4) rest
  unfolding s signed
  s4-to_big off (pos x) rest h at =
      let (e, at1) = u-to_big off 4 x rest (omega arith) at in (rw (s, e) (ground arith), at1)
  s4-to_big off (negsuc x) rest h at =
      let (e, at1) = u-to_big off 4 (word 4 (negsuc x)) rest (omega arith) at in
      (rw (s, e) (ground arith), at1)

  pub s2-to_big :
      (off : ℕ) (x : ℤ) (rest : List ℕ)
      → InRange 2 x
      → At bytes off (to_big 2 (word 2 x) rest)
      → (s bytes off 2 ≡ (x, off + 2)) × At bytes (off + 2) rest
  unfolding s signed
  s2-to_big off (pos x) rest h at =
      let (e, at1) = u-to_big off 2 x rest (omega arith) at in (rw (s, e) (ground arith), at1)
  s2-to_big off (negsuc x) rest h at =
      let (e, at1) = u-to_big off 2 (word 2 (negsuc x)) rest (omega arith) at in
      (rw (s, e) (ground arith), at1)
