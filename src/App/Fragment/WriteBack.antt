-- ===== src/App/Fragment/WriteBack.antt =====
-- A fragment that was parsed is the octets that building it again writes.
use go_dnp.Common.{
  ℕ, zero, suc, ◌+◌, ◌≤◌, ◌<◌, false, leb, ◌==◌, Option, List, [], ◌∷◌, ◌++◌, append_assoc,
  append-nil, length, length-drop, take, take-add, take-all, drop, All, All-drop, Result,
  Result-cases, ok, err, Bool-cases, leb→le, le→leb, lt→leb-false, leb-false→lt, ◌≡◌, ◌≢◌, refl,
  sym, ap, ◌∙◌, ◌⊎◌, inl, inr, arith,
}
use go_dnp.Common.Bits.{IsByte}
use go_dnp.App.Errors.{Error}
use go_dnp.App.Header.{Header, parse_header, append_header}
use go_dnp.App.Header.RoundTrip.{append_header-parse_header}
use go_dnp.App.Object.{ObjectHeader, parse_object_header, append_object_header}
use go_dnp.App.Object.Extent.{parse_object_header-IsObject}
use go_dnp.App.Object.WriteBack.{append_range-front, append_object_header-parse_object_header}
use go_dnp.App.Fragment.{
  Fragment, Status, nil, failed, out_of_fuel, object_carries_data, after_object, parse_objects,
  parse_fragment, append_objects,
}

-- What the objects write, behind what there is.
append_object_header-front :
    (dst : List ℕ) (h : ObjectHeader)
    → append_object_header dst h ≡ dst ++ append_object_header [] h
unfolding append_object_header
append_object_header-front dst h =
    ap (λ t. t ++ h.payload)
      (append_range-front _ h.range
        ∙ append_assoc dst _ _
        ∙ ap (dst ++◌) (sym (append_range-front _ h.range)))
    ∙ append_assoc dst _ _

append_objects-front :
    (dst : List ℕ) (os : List ObjectHeader) → append_objects dst os ≡ dst ++ append_objects [] os
unfolding append_objects
append_objects-front dst [] = sym (append-nil dst)
append_objects-front dst (o ∷ os) =
    append_objects-front (append_object_header dst o) os
    ∙ ap (λ t. t ++ append_objects [] os) (append_object_header-front dst o)
    ∙ append_assoc dst _ _
    ∙ ap (dst ++◌) (sym (append_objects-front (append_object_header [] o) os))

-- Where the loop ends, from the offset `off`: it has read what is written before `stop`, and without an
-- error that is the end.
pub record Reads (buf : List ℕ) (off : ℕ) (r : List ObjectHeader × Status) : Type 0 where
  pub stop : ℕ
  pub forward : off ≤ stop
  pub inside : stop ≤ length buf
  pub written : take off buf ++ append_objects [] r.0 ≡ take stop buf
  pub whole : (stop ≡ length buf) ⊎ ((e : Error) × (r.1 ≡ failed e))
  pub ends : r.1 ≢ out_of_fuel

positive : (n : ℕ) → 0 < n → (n == 0) ≡ false
positive n h = ground arith

-- What one header writes behind what came before it.
write_one :
    (buf : List ℕ) (off used : ℕ) (h : ObjectHeader) (os : List ObjectHeader)
    → append_object_header [] h ≡ take used (drop off buf)
    → take off buf ++ append_objects [] (h ∷ os) ≡ take (off + used) buf ++ append_objects [] os
unfolding append_objects
write_one buf off used h os e =
    ap (take off buf ++◌)
      (append_objects-front (append_object_header [] h) os ∙ ap (λ t. t ++ append_objects [] os) e)
    ∙ sym (append_assoc (take off buf) (take used (drop off buf)) _)
    ∙ ap (λ t. t ++ append_objects [] os) (take-add off used buf)

module _ (sizer : ℕ → ℕ → Option ℕ) (func fuel : ℕ) (buf : List ℕ) (off : ℕ)
    (v : All IsByte buf) where
  abbrev header_at : Result Error (ObjectHeader × ℕ)
  header_at = parse_object_header sizer (drop off buf) off (object_carries_data func buf off)

  read_on :
      (h : ObjectHeader) (used : ℕ)
      → header_at ≡ ok (h, used)
      → 0 < used
      → off < length buf
      → parse_objects sizer func (suc fuel) buf off
        ≡ (let later = parse_objects sizer func fuel buf (off + used) in (h ∷ later.0, later.1))
  unfolding parse_objects after_object
  read_on h used e p l = rw (e, lt→leb-false (length buf) off l, positive used p) refl

  read_one :
      (h : ObjectHeader) (used : ℕ)
      → off < length buf
      → header_at ≡ ok (h, used)
      → (off + used ≤ length buf
          → Reads buf (off + used) (parse_objects sizer func fuel buf (off + used)))
      → Reads buf off (parse_objects sizer func (suc fuel) buf off)
  read_one h used l e next =
      let o = parse_object_header-IsObject sizer (drop off buf) off _ h used e in
      let r = next (omega (arith, o.enough, length-drop off buf)) in
      rw (read_on h used e (omega (arith, o.some)) l) (record {
        stop = r.stop;
        forward = omega (arith, r.forward);
        inside = r.inside;
        written =
            write_one buf off used h _ (
              append_object_header-parse_object_header sizer (drop off buf) off _ h used
                (All-drop IsByte off buf v) e)
            ∙ r.written;
        whole = r.whole;
        ends = r.ends;
      })

  end-Reads :
      length buf ≤ off
      → off ≤ length buf
      → Reads buf off (parse_objects sizer func (suc fuel) buf off)
  unfolding parse_objects
  end-Reads h l = rw (le→leb (length buf) off h) (record {
    stop = off;
    forward = omega arith;
    inside = l;
    written = unfold append_objects in append-nil (take off buf);
    whole = inl (omega arith);
    ends = λ c. cc;
  })

  error-Reads :
      (x : Error)
      → off < length buf
      → header_at ≡ err x
      → Reads buf off (parse_objects sizer func (suc fuel) buf off)
  unfolding parse_objects after_object
  error-Reads x l e =
      rw (e, lt→leb-false (length buf) off l)
        (record {
          stop = off;
          forward = omega arith;
          inside = omega arith;
          written = unfold append_objects in append-nil (take off buf);
          whole = inr (x, refl);
          ends = λ c. cc;
        })

parse_objects-Reads :
    (sizer : ℕ → ℕ → Option ℕ) (func fuel : ℕ) (buf : List ℕ) (off : ℕ)
    → All IsByte buf
    → off ≤ length buf
    → length buf < off + fuel
    → Reads buf off (parse_objects sizer func fuel buf off)
parse_objects-Reads sizer func zero buf off v l h = absurd (omega arith)
parse_objects-Reads sizer func (suc fuel) buf off v l h = elim (Bool-cases (leb (length buf) off)) [
  | inl e ↦ end-Reads sizer func fuel buf off v (leb→le _ _ e) l
  | inr e ↦
      let more : off < length buf = omega (arith, leb-false→lt (length buf) off e) in
      elim (Result-cases (header_at sizer func fuel buf off v)) [
        | inl ((o, used), f) ↦ read_one sizer func fuel buf off v o used more f λ fits.
            parse_objects-Reads sizer func fuel buf (off + used) v fits (
              omega (
                arith,
                (parse_object_header-IsObject sizer (drop off buf) off
                    (object_carries_data func buf off) o used f).some,
              ))
        | inr (x, f) ↦ error-Reads sizer func fuel buf off v x more f
      ]
]

-- A parsed fragment, and the octets that its header and its objects write.
pub record Written (buf : List ℕ) (h : Header) (r : Fragment × Status) : Type 0 where
  pub same_header : r.0.header ≡ h
  pub stop : ℕ
  pub inside : stop ≤ length buf
  pub written : append_objects (append_header [] r.0.header) r.0.objects ≡ take stop buf
  pub whole : (stop ≡ length buf) ⊎ ((e : Error) × (r.1 ≡ failed e))
  pub ends : r.1 ≢ out_of_fuel

-- Of a buffer of octets whose header can be read, by whatever sizer: the loop over the objects ends,
-- the header and the objects that were read write what stands in front of the place where reading
-- stopped, and if that is not the end of the buffer there is an error.
pub parse_fragment-Written :
    (sizer : ℕ → ℕ → Option ℕ) (buf : List ℕ) (h : Header) (n : ℕ)
    → All IsByte buf
    → parse_header buf ≡ ok (h, n)
    → Written buf h (parse_fragment sizer buf)
unfolding parse_fragment
parse_fragment-Written sizer buf h n v e =
    let front = append_header-parse_header buf h n v e in
    let r =
      parse_objects-Reads sizer h.func (length buf + 1) buf n v front.1 (omega (arith, front.1)) in
    rw (e, parse_fragment)
      (record {
        same_header = refl;
        stop = r.stop;
        inside = r.inside;
        written =
            append_objects-front (append_header [] h) _
            ∙ ap (λ t. t ++ append_objects [] (parse_objects sizer h.func (length buf + 1) buf n).0)
                front.2
            ∙ r.written;
        whole = r.whole;
        ends = r.ends;
      })

clash : {e : Error} → nil ≢ failed e
clash p = cc

header_error :
    (sizer : ℕ → ℕ → Option ℕ) (buf : List ℕ) (x : Error)
    → parse_header buf ≡ err x
    → (parse_fragment sizer buf).1 ≡ failed x
unfolding parse_fragment
header_error sizer buf x e = rw (e, parse_fragment) refl

-- A buffer of octets that is parsed without an error is exactly what building its header and its
-- objects again writes.
pub build-parse_fragment :
    (sizer : ℕ → ℕ → Option ℕ) (buf : List ℕ)
    → All IsByte buf
    → (parse_fragment sizer buf).1 ≡ nil
    → (let f = (parse_fragment sizer buf).0 in
        append_objects (append_header [] f.header) f.objects ≡ buf)
build-parse_fragment sizer buf v e = elim (Result-cases (parse_header buf)) [
  | inl ((h, n), f) ↦
      let w = parse_fragment-Written sizer buf h n v f in
      w.written ∙ elim w.whole [
        | inl done ↦ take-all w.stop buf (omega (arith, done))
        | inr (x, bad) ↦ absurd (clash (sym e ∙ bad))
      ]
  | inr (x, f) ↦ absurd (clash (sym e ∙ header_error sizer buf x f))
]
