-- ===== src/Pccc/RoundTrip.antt =====
-- From the text of an address to its encoding and back: `parse_pccc_logical_address` and
-- `slc_encode_address` of libplctag/src/libplctag/protocols/ab/pccc.c.
use junk.Prelude.{
  ℕ, ◌+◌, ◌≤◌, ◌<◌, ◌≡◌, refl, ap, ◌∙◌, true, false, not, ◌&&◌, ◌||◌, [], ◌∷◌, ◌++◌, some, arith,
  ◌==◌, length, pos, if_first, if_second, ltb_ℤ, not_negative,
}
use junk.Memory.{Bytes}
use junk.Status.{status_ok}
use junk.Attr.{Text}
use junk.Pccc.{PcccAddr, encode_data, slc_fields, slc_encode_address}
use junk.Pccc.Types.{pccc_file_input, pccc_file_output}
use junk.Pccc.Parser.{
  is_digit, first_of, take_number, parse_pccc_file_type, parse_pccc_file_num, parse_pccc_elem_num,
  parse_pccc_subelem, parse_pccc_subelem_num, or_mnemonic, parse_pccc_bit_num,
  parse_pccc_logical_address,
}
use junk.Pccc.Digits.{value_from, IsNumber, take_number-digits}
use junk.Pccc.Encoding.{decode_at, width, encode_data-Encoded, decode_at-Encoded}

abbrev pub number_of : Text → ℕ
number_of ds = value_from 0 ds

number_read :
    (ds rest : Text)
    → IsNumber ds
    → is_digit (first_of rest) ≡ false
    → take_number 0 (ds ++ rest) ≡ (number_of ds, rest)
number_read ds rest n stop = take_number-digits ds rest 0 n.digits n.small stop

starts : (ds rest : Text) → is_digit (first_of ds) ≡ true → is_digit (first_of (ds ++ rest)) ≡ true
starts [] rest h = absurd (ground arith)
starts (c ∷ cs) rest h = h

file_num_read :
    (ds rest : Text) (a : PcccAddr)
    → IsNumber ds
    → is_digit (first_of rest) ≡ false
    → parse_pccc_file_num (ds ++ rest) a
      ≡ (rest, (record a { file = pos (number_of ds) }, status_ok))
unfolding parse_pccc_file_num
file_num_read ds rest a n stop =
    let digit = starts ds rest n.some_digit in
    let here : ((a.file_type == pccc_file_input || a.file_type == pccc_file_output)
          && not (is_digit (first_of (ds ++ rest))))
        ≡ false =
      ground (arith, digit) in
    if_second _ _ here ∙ (rw (number_read ds rest n stop) refl)

elem_num_read :
    (ds rest : Text) (a : PcccAddr)
    → IsNumber ds
    → is_digit (first_of rest) ≡ false
    → parse_pccc_elem_num (b':' ∷ (ds ++ rest)) a
      ≡ (rest, (record a { element = pos (number_of ds) }, status_ok))
unfolding parse_pccc_elem_num
elem_num_read ds rest a n stop = rw (number_read ds rest n stop) refl

subelem_num_read :
    (ds : Text) (a : PcccAddr)
    → IsNumber ds
    → parse_pccc_subelem_num (ds ++ []) a
      ≡ ([], (record a { sub_element = pos (number_of ds) }, status_ok))
unfolding parse_pccc_subelem_num
subelem_num_read ds a n =
    if_first _ _ (starts ds [] n.some_digit) ∙ (rw (number_read ds [] n refl) refl)

subelem_read :
    (ds : Text) (a : PcccAddr)
    → IsNumber ds
    → parse_pccc_subelem (b'.' ∷ (ds ++ [])) a
      ≡ ([], (record a { sub_element = pos (number_of ds) }, status_ok))
unfolding parse_pccc_subelem
subelem_read ds a n = ap or_mnemonic (subelem_num_read ds a n)

-- What the encoding of the four fields gives.
pub record IsEncoded (bs after : Bytes) (n file file_type element sub : ℕ) : Type 0 where
  pub size : n ≤ 10
  pub same_length : length after ≡ length bs
  pub file_there : decode_at after 0 ≡ file
  pub type_there : decode_at after (width file) ≡ file_type
  pub element_there : decode_at after (width file + width file_type) ≡ element
  pub sub_there : decode_at after (width file + width file_type + width element) ≡ sub
  pub all_there : n ≡ width file + width file_type + width element + width sub

zero_and : (j : ℕ) → 0 + j ≡ j
zero_and j = omega arith

width-le : (v : ℕ) → width v ≤ 3
width-le v = ground arith

-- The address that the text names, with the rest as in `a`.
abbrev pub address : PcccAddr → ℕ → ℕ → ℕ → PcccAddr
address a f e s = record a { file = pos f; element = pos e; sub_element = pos s }

slc_fields-runs :
    (bs b1 b2 b3 : Bytes) (i1 i2 i3 : ℕ) (r : Bytes × ℕ) (a : PcccAddr) (f e s : ℕ)
    → encode_data (bs, 0) (pos f) ≡ some (b1, i1)
    → encode_data (b1, i1) (pos a.file_type) ≡ some (b2, i2)
    → encode_data (b2, i2) (pos e) ≡ some (b3, i3)
    → encode_data (b3, i3) (pos s) ≡ some r
    → slc_fields bs (address a f e s) ≡ some r
unfolding slc_fields
slc_fields-runs bs b1 b2 b3 i1 i2 i3 r a f e s r1 r2 r3 r4 =
    let sign = not_negative s in rw (r1, r2, r3, sign, r4) refl

slc_fields-IsEncoded :
    (bs : Bytes) (a : PcccAddr) (f e s : ℕ)
    → f < 65536
    → e < 65536
    → s < 65536
    → a.file_type ≤ 254
    → 10 ≤ length bs
    → (after : Bytes) × (n : ℕ) × (slc_fields bs (address a f e s) ≡ some (after, n))
      × IsEncoded bs after n f a.file_type e s
slc_fields-IsEncoded bs a f e s lf le ls lt room =
    let t = a.file_type in
    let wf = width-le f in
    let wt : width t ≡ 1 = ground arith in
    let we = width-le e in
    let ws = width-le s in
    let (b1, c1) = encode_data-Encoded bs 0 f lf (omega (arith, wf)) in
    let (b2, c2) =
      encode_data-Encoded b1 (width f) t (omega arith) (omega (arith, wf, wt, c1.same_length)) in
    let (b3, c3) =
      encode_data-Encoded b2 (width f + width t) e le
        (omega (arith, wf, wt, we, c1.same_length, c2.same_length)) in
    let (b4, c4) =
      encode_data-Encoded b3 (width f + width t + width e) s ls
        (omega (arith, wf, wt, we, ws, c1.same_length, c2.same_length, c3.same_length)) in
    (
      b4,
      width f + width t + width e + width s,
      slc_fields-runs bs b1 b2 b3 (width f) (width f + width t) (width f + width t + width e) _ a f
          e s (c1.runs ∙ ap (λ (m : ℕ). some (b1, m)) (zero_and (width f))) c2.runs c3.runs c4.runs,
      record {
        size = omega (arith, wf, wt, we, ws);
        same_length = c4.same_length ∙ (c3.same_length ∙ (c2.same_length ∙ c1.same_length));
        file_there = decode_at-Encoded bs b1 b4 0 f c1 (λ p below.
            c4.kept p (omega arith) ∙ (c3.kept p (omega arith) ∙ c2.kept p (omega arith)));
        type_there =
            decode_at-Encoded b1 b2 b4 (width f) t c2
              (λ p below. c4.kept p (omega arith) ∙ c3.kept p (omega arith));
        element_there =
            decode_at-Encoded b2 b3 b4 (width f + width t) e c3
              (λ p below. c4.kept p (omega arith));
        sub_there = decode_at-Encoded b3 b4 b4 (width f + width t + width e) s c4 (λ p below. refl);
        all_there = refl;
      },
    )

abbrev pub number_text : Text → Text → Text → Text
number_text fs es ss = fs ++ (b':' ∷ (es ++ (b'.' ∷ (ss ++ []))))

parse_pccc_logical_address-reads :
    (p : Text) (a a1 : PcccAddr) (fs es ss : Text)
    → parse_pccc_file_type p a ≡ (number_text fs es ss, (a1, status_ok))
    → IsNumber fs
    → IsNumber es
    → IsNumber ss
    → parse_pccc_logical_address p a
      ≡ ([], (address a1 (number_of fs) (number_of es) (number_of ss), status_ok))
unfolding parse_pccc_logical_address parse_pccc_bit_num take_number
parse_pccc_logical_address-reads p a a1 fs es ss typed nf ne ns =
    rw
      (
        typed,
        file_num_read fs (b':' ∷ (es ++ (b'.' ∷ (ss ++ [])))) a1 nf refl,
        elem_num_read es (b'.' ∷ (ss ++ [])) (record a1 { file = pos (number_of fs) }) ne refl,
        subelem_read ss (record a1 { file = pos (number_of fs); element = pos (number_of es) }) ns,
      )
      refl

-- A text whose type `parse_pccc_file_type` accepts, and behind it a file number, a colon, an
-- element number, a point and a number of a sub-element, each of one digit or more and 65535 at
-- most: the parser accepts the whole text. If the type has a code, of 254 at most, then encoding
-- the address for a SLC returns OK whenever the buffer has the 10 bytes that the function asks for,
-- writes no more than 10 bytes, and the four fields that stand there one behind the other are the
-- file number, the type, the element number and the sub-element's number of the text.
pub address_round_trip :
    (p : Text) (a a1 : PcccAddr) (fs es ss : Text) (bs : Bytes) (old_size buf_size : ℕ)
    → parse_pccc_file_type p a ≡ (number_text fs es ss, (a1, status_ok))
    → IsNumber fs
    → IsNumber es
    → IsNumber ss
    → (a1.file_type == 0) ≡ false
    → a1.file_type ≤ 254
    → 10 ≤ buf_size
    → buf_size ≤ length bs
    → (a2 : PcccAddr) × (after : Bytes) × (n : ℕ) × (parse_pccc_logical_address p a
        ≡ ([], (a2, status_ok)))
      × (slc_encode_address bs old_size (pos buf_size) a2 ≡ some ((after, n), status_ok))
      × IsEncoded bs after n (number_of fs) a1.file_type (number_of es) (number_of ss)
unfolding slc_encode_address
address_round_trip p a a1 fs es ss bs old_size buf_size typed nf ne ns known small big fit =
    let (after, n, runs, is) =
      slc_fields-IsEncoded bs a1 (number_of fs) (number_of es) (number_of ss)
        (omega (arith, nf.small)) (omega (arith, ne.small)) (omega (arith, ns.small)) small
        (omega arith) in
    let room : ltb_ℤ (pos buf_size) (pos 10) ≡ false = ground arith in
    (
      address a1 (number_of fs) (number_of es) (number_of ss),
      after,
      n,
      parse_pccc_logical_address-reads p a a1 fs es ss typed nf ne ns,
      if_second _ _ room ∙ (if_second _ _ known ∙ (rw runs refl)),
      is,
    )
