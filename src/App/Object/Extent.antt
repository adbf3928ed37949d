-- ===== src/App/Object/Extent.antt =====
-- An object header that is parsed, and its data, lie in the buffer.
use go_dnp.Common.{
  [], ℕ, ◌+◌, ◌-◌, ◌*◌, ◌≤◌, Bool, Option, Option-cases, List, length, get_or, drop, take,
  length-drop, length-take, ok, Result-cases, ◌≡◌, refl, sym, ap, ap₂, ◌∙◌, inl, inr, arith,
}
use go_dnp.App.Qualifier.{Range, index_prefix, range_spec, range_octets, parse_range, prefix_octets}
use go_dnp.App.Qualifier.RangeBounds.{parse_range-IsParsed}
use go_dnp.App.Object.{
  ObjectHeader, object_size, object_data_len, sized_data_len, parse_object_header,
}
use go_dnp.App.Object.Walks.{
  walk_attributes-Within, walk_size_prefixed-Within, walk_activations-Within, check_fits-le,
}

sized_data_len-le :
    (bits : ℕ) (h : ObjectHeader) (buf : List ℕ) (n : ℕ)
    → sized_data_len bits h buf ≡ ok n
    → n ≤ length buf
unfolding sized_data_len
sized_data_len-le bits h buf n e = ground arith

-- The data of a header, by whatever sizer, ends inside the buffer.
pub object_data_len-le :
    (sizer : ℕ → ℕ → Option ℕ) (h : ObjectHeader) (buf : List ℕ) (carries : Bool) (n : ℕ)
    → object_data_len sizer h buf carries ≡ ok n
    → n ≤ length buf
unfolding object_data_len
object_data_len-le sizer h buf carries n e =
    let count = h.range.count in
    let octets = prefix_octets (index_prefix h.qualifier) in
    elim (Option-cases (sizer h.group h.variation)) [
      | inl f ↦ ground (
        arith,
        f,
        walk_size_prefixed-Within octets count 0 buf n,
        walk_attributes-Within count 0 buf n,
        walk_activations-Within count 0 buf n,
        check_fits-le (count * octets) buf n,
      )
      | inr (bits, f) ↦ ground (
        arith,
        f,
        walk_size_prefixed-Within octets count 0 buf n,
        walk_attributes-Within count 0 buf n,
        walk_activations-Within count 0 buf n,
        check_fits-le (count * octets) buf n,
        sized_data_len-le bits h buf n,
      )
    ]

-- The parts that a parsed header is made of.
pub record Parts (sizer : ℕ → ℕ → Option ℕ) (buf : List ℕ) (offset : ℕ) (carries : Bool)
    (h : ObjectHeader) (n : ℕ) : Type 0 where
  pub range_len : ℕ
  pub data_len : ℕ
  pub fixed : 3 ≤ length buf
  pub ranged : parse_range (range_spec (get_or buf 2 0)) (drop 3 buf) ≡ ok (h.range, range_len)
  pub measured :
      object_data_len sizer (record h { payload = [] }) (drop (3 + range_len) buf) carries
      ≡ ok data_len
  pub made : h ≡ record {
    group = get_or buf 0 0;
    variation = get_or buf 1 0;
    qualifier = get_or buf 2 0;
    range = h.range;
    payload = take data_len (drop (3 + range_len) buf);
    offset = offset;
    data_offset = offset + (3 + range_len);
  }
  pub taken : n ≡ 3 + range_len + data_len

abbrev head : List ℕ → ℕ → Range → ℕ → ObjectHeader
head buf offset range range_len = record {
  group = get_or buf 0 0;
  variation = get_or buf 1 0;
  qualifier = get_or buf 2 0;
  range = range;
  payload = [];
  offset = offset;
  data_offset = offset + (3 + range_len);
}

abbrev filled : List ℕ → ℕ → Range → ℕ → ℕ → ObjectHeader
filled buf offset range range_len data_len = record (head buf offset range range_len) {
  payload = take data_len (drop (3 + range_len) buf);
}

parts :
    (sizer : ℕ → ℕ → Option ℕ) (buf : List ℕ) (offset : ℕ) (carries : Bool) (h : ObjectHeader)
    (n : ℕ) (range : Range) (range_len data_len : ℕ)
    → (h ≡ filled buf offset range range_len data_len)
      × (n ≡ 3 + range_len + data_len)
      × (3 ≤ length buf)
    → parse_range (range_spec (get_or buf 2 0)) (drop 3 buf) ≡ ok (range, range_len)
    → object_data_len sizer (head buf offset range range_len) (drop (3 + range_len) buf) carries
      ≡ ok data_len
    → Parts sizer buf offset carries h n
parts sizer buf offset carries h n range range_len data_len facts f g = record {
  range_len = range_len;
  data_len = data_len;
  fixed = facts.2;
  ranged = rw (ap (λ x. x.range) facts.0) f;
  measured = rw (facts.0) g;
  made = rw (facts.0) refl;
  taken = facts.1;
}

pub parse_object_header-Parts :
    (sizer : ℕ → ℕ → Option ℕ) (buf : List ℕ) (offset : ℕ) (carries : Bool) (h : ObjectHeader)
    (n : ℕ)
    → parse_object_header sizer buf offset carries ≡ ok (h, n)
    → Parts sizer buf offset carries h n
unfolding parse_object_header
parse_object_header-Parts sizer buf offset carries h n e =
    elim (Result-cases (parse_range (range_spec (get_or buf 2 0)) (drop 3 buf))) [
      | inl ((range, range_len), f) ↦
          elim (Result-cases (
            object_data_len sizer (head buf offset range range_len) (drop (3 + range_len) buf)
              carries)) [
                | inl (data_len, g) ↦
                    let facts : (h ≡ filled buf offset range range_len data_len)
                        × (n ≡ 3 + range_len + data_len)
                        × (3 ≤ length buf) =
                      ground (arith, f, g) in
                    parts sizer buf offset carries h n range range_len data_len facts f g
                | inr (x, g) ↦ absurd (ground (arith, f, g))
              ]
      | inr (x, f) ↦ absurd (ground (arith, f))
    ]

-- What is known of a header that was parsed from a buffer at an offset.
pub record IsObject (buf : List ℕ) (offset : ℕ) (h : ObjectHeader) (n : ℕ) : Type 0 where
  pub enough : n ≤ length buf
  pub some : 3 ≤ n
  pub sized : n ≡ object_size h
  pub placed : h.offset ≡ offset
  pub data_placed : h.data_offset + length h.payload ≡ offset + n
  pub data_taken : h.payload ≡ take (length h.payload) (drop (h.data_offset - offset) buf)

-- An object header that is parsed at an offset, by whatever sizer, takes at least three octets and no
-- more than there are, as many as its size says. It is at that offset; its data end where the octets it
-- takes end, and are the octets of the buffer that stand at the data offset.
pub parse_object_header-IsObject :
    (sizer : ℕ → ℕ → Option ℕ) (buf : List ℕ) (offset : ℕ) (carries : Bool) (h : ObjectHeader)
    (n : ℕ)
    → parse_object_header sizer buf offset carries ≡ ok (h, n)
    → IsObject buf offset h n
unfolding parse_object_header object_size
parse_object_header-IsObject sizer buf offset carries h n e =
    let p = parse_object_header-Parts sizer buf offset carries h n e in
    let r =
      parse_range-IsParsed (range_spec (get_or buf 2 0)) (drop 3 buf) h.range p.range_len
        p.ranged in
    let fits =
      object_data_len-le sizer (record h { payload = [] }) (drop (3 + p.range_len) buf) carries
        p.data_len p.measured in
    let inside : p.data_len ≤ length buf - (3 + p.range_len) =
      omega (arith, fits, length-drop (3 + p.range_len) buf) in
    let long : length h.payload ≡ p.data_len = omega (
      arith,
      ap (λ x. length x.payload) p.made,
      length-take p.data_len (drop (3 + p.range_len) buf),
      length-drop (3 + p.range_len) buf,
      inside,
    ) in
    let range_fits : p.range_len ≤ length buf - 3 = omega (arith, r.enough, length-drop 3 buf) in
    record {
      enough = omega (arith, p.taken, p.fixed, inside, range_fits);
      some = omega (arith, p.taken);
      sized =
          omega
            (arith, p.taken, r.width, long, ap (λ x. range_octets (range_spec x.qualifier)) p.made);
      placed = ap (λ x. x.offset) p.made;
      data_placed = omega (arith, p.taken, long, ap (λ x. x.data_offset) p.made);
      data_taken =
          ap (λ x. x.payload) p.made
          ∙ ap₂ (λ k m. take k (drop m buf)) (sym long)
              (omega (arith, ap (λ x. x.data_offset) p.made));
    }
