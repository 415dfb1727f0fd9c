-- ===== src/Xml/Escape/RoundTrip.antt =====
-- The XML escapes, described byte by byte, and undone by the unescapes.
use dlna.Prelude.{
  ℕ, ◌≡◌, ◌≢◌, refl, ap, sym, ◌∙◌, some, [], ◌∷◌, ◌++◌, append_assoc, append-nil, arith, Bytes,
  codes, ◌==◌, if◌then◌else◌, inl, inr, All-append,
}
use mathlib.Core.Path.{subst}
use dlna.Text.{strncmp}
use dlna.Text.Search.Find.{Lacks}
use dlna.Str.{Memory, CgString}
use dlna.Str.Value.{text_of, text, Succeeds}
use dlna.Str.Replace.Loop.{IsInvariant, IsProper, Misses, Replaced, cg_string_replace-Ends}
use dlna.Xml.Escape.{escape_table, unescape_table, cg_xml_escapechars, cg_xml_unescapechars}

-- the reference of an XML special character, or the byte itself
pub escape_byte : ℕ → Bytes
escape_byte c =
    if c == b'&'
    then codes "&amp;"
    else if c == b'>'
    then codes "&gt;"
    else if c == b'<'
    then codes "&lt;"
    else if c == b'"'
    then codes "&quot;"
    else if c == b'\''
    then codes "&apos;"
    else c ∷ []

pub escaped : Bytes → Bytes
escaped [] = []
escaped (c ∷ s) = escape_byte c ++ escaped s

Escaping : Bytes → Bytes → Bytes → Type 0
Escaping s rest out = out ++ escaped rest ≡ escaped s

escape-hit :
    (s r out : Bytes) (c : ℕ) → Escaping s (c ∷ r) out → Escaping s r (out ++ escape_byte c)
unfolding Escaping escaped
escape-hit s r out c h = append_assoc out (escape_byte c) (escaped r) ∙ h

plain : (c : ℕ) (r : Bytes) → Misses escape_table (c ∷ r) → escape_byte c ≡ c ∷ []
unfolding escape_byte strncmp
plain c r h = ground arith

escape-IsInvariant : (s : Bytes) → IsInvariant escape_table (Escaping s)
unfolding escape_byte
escape-IsInvariant s = record {
  hit = (
    λ r out. escape-hit s r out b'&',
    (
      λ r out. escape-hit s r out b'>',
      (
        λ r out. escape-hit s r out b'<',
        (λ r out. escape-hit s r out b'"', (λ r out. escape-hit s r out b'\'', tt)),
      ),
    ),
  );
  miss = λ c r out m h. rw (← plain c r m) (escape-hit s r out c h);
}

-- `rest` is an escaped text, and `out` is what stood in front of that text.
Unescaping : Bytes → Bytes → Bytes → Type 0
Unescaping s rest out = (t : Bytes) × (rest ≡ escaped t) × (out ++ t ≡ s)

-- The escape of `c` stands at the front of an escaped text only where `c` was.
Decodes : ℕ → Type 0
Decodes c = (d : ℕ) (r r' : Bytes) → escape_byte c ++ r ≡ escape_byte d ++ r' → (d ≡ c) × (r ≡ r')

decodes : Decodes b'&' × Decodes b'>' × Decodes b'<' × Decodes b'"' × Decodes b'\''
unfolding Decodes escape_byte
decodes = (
  λ d r r' h. ground arith,
  λ d r r' h. ground arith,
  λ d r r' h. ground arith,
  λ d r r' h. ground arith,
  λ d r r' h. ground arith,
)

escape_byte-cons : (c : ℕ) (r : Bytes) → escape_byte c ++ r ≢ []
unfolding escape_byte
escape_byte-cons c r = ground arith

unescape-hit :
    (s : Bytes) (c : ℕ)
    → Decodes c
    → (r out : Bytes) → Unescaping s (escape_byte c ++ r) out
    → Unescaping s r (out ++ c ∷ [])
unfolding Unescaping Decodes escaped
unescape-hit s c dec r out ([], e, h) = absurd (escape_byte-cons c r e)
unescape-hit s c dec r out (d ∷ t, e, h) =
    let (same, rest) = dec d r (escaped t) e in
    (t, rest, append_assoc out (c ∷ []) t ∙ ap (λ x. out ++ x ∷ t) (sym same) ∙ h)

-- Where no reference stands, the first byte of an escaped text stands for itself.
unescape_plain :
    (d : ℕ) (r : Bytes) → Misses unescape_table (escape_byte d ++ r) → escape_byte d ≡ d ∷ []
unfolding escape_byte strncmp
unescape_plain d r h = ground arith

unescape-miss :
    (s : Bytes) (c : ℕ) (r out : Bytes)
    → Misses unescape_table (c ∷ r)
    → Unescaping s (c ∷ r) out
    → Unescaping s r (out ++ c ∷ [])
unfolding Unescaping escaped
unescape-miss s c r out m ([], e, h) = absurd (cc)
unescape-miss s c r out m (d ∷ t, e, h) =
    let one = unescape_plain d (escaped t) (rw e at m) in
    let same : c ∷ r ≡ d ∷ escaped t = e ∙ ap (λ b. b ++ escaped t) one in
    let head : c ≡ d = ground arith in
    (t, ground arith, append_assoc out (c ∷ []) t ∙ ap (λ x. out ++ x ∷ t) head ∙ h)

unescape-IsInvariant : (s : Bytes) → IsInvariant unescape_table (Unescaping s)
unfolding escape_byte
unescape-IsInvariant s =
    let (amp, gt, lt, quot, apos) = decodes in
    record {
      hit = (
        unescape-hit s b'&' amp,
        (
          unescape-hit s b'>' gt,
          (unescape-hit s b'<' lt, (unescape-hit s b'"' quot, (unescape-hit s b'\'' apos, tt))),
        ),
      );
      miss = unescape-miss s;
    }

escape_table-IsProper : IsProper escape_table
escape_table-IsProper = (
  ((λ h. cc), omega arith),
  (
    ((λ h. cc), omega arith),
    (((λ h. cc), omega arith), (((λ h. cc), omega arith), (((λ h. cc), omega arith), tt))),
  ),
)

unescape_table-IsProper : IsProper unescape_table
unescape_table-IsProper = (
  ((λ h. cc), omega arith),
  (
    ((λ h. cc), omega arith),
    (((λ h. cc), omega arith), (((λ h. cc), omega arith), (((λ h. cc), omega arith), tt))),
  ),
)

escaped-eq_nil : (s : Bytes) → escaped s ≡ [] → s ≡ []
unfolding escaped
escaped-eq_nil [] h = refl
escaped-eq_nil (c ∷ s) h = absurd (escape_byte-cons c (escaped s) h)

-- Where only the empty text becomes empty, the string holds the new text.
Replaced-text :
    (str : CgString) (out : Bytes) (str' : CgString)
    → (out ≡ [] → text str ≡ [])
    → Replaced str out str'
    → text str' ≡ out
Replaced-text str [] str' h (r, empty) = elim (empty refl) [
  | inl e ↦ ap text_of e
  | inr same ↦ ap text same ∙ h refl
]
Replaced-text str (c ∷ out) str' h (r, empty) = ap text_of (r (λ e. cc))

escape_byte-Lacks : (c : ℕ) → c ≢ 0 → Lacks 0 (escape_byte c)
unfolding escape_byte
escape_byte-Lacks c h = ground arith

escaped-Lacks : (s : Bytes) → Lacks 0 s → Lacks 0 (escaped s)
unfolding escaped
escaped-Lacks [] h = tt
escaped-Lacks (c ∷ s) (ne, h) =
    All-append (λ d. d ≢ 0) (escape_byte c) (escaped s) (escape_byte-Lacks c ne) (escaped-Lacks s h)

module _ (mem : Memory) (ok : Succeeds mem) where
  -- Where allocations succeed, escaping a text without a byte 0 ends, and each of the special
  -- bytes has become its reference and every other byte is as it was.
  pub cg_xml_escapechars-escaped :
      (str : CgString)
      → Lacks 0 (text str)
      → (str' : CgString) × (cg_xml_escapechars mem str ≡ some (str', str'.value))
        × (text str' ≡ escaped (text str))
  unfolding cg_xml_escapechars Escaping
  cg_xml_escapechars-escaped str lacks =
      let (str', out, e, last, r) =
        cg_string_replace-Ends mem ok (Escaping (text str)) str escape_table escape_table-IsProper
          (escape-IsInvariant (text str)) refl in
      let whole : out ≡ escaped (text str) = sym (append-nil out) ∙ (unfold escaped in last) in
      let stored = r (subst (Lacks 0) (sym whole) (escaped-Lacks (text str) lacks)) in
      (
        str',
        e,
        Replaced-text str out str' (λ none. escaped-eq_nil (text str) (sym whole ∙ none)) stored
            ∙ whole,
      )

  cg_xml_unescapechars-escaped :
      (str : CgString) (s : Bytes)
      → Lacks 0 s
      → text str ≡ escaped s
      → (str' : CgString) × (cg_xml_unescapechars mem str ≡ some (str', str'.value))
        × (text str' ≡ s)
  unfolding cg_xml_unescapechars Unescaping
  cg_xml_unescapechars-escaped str s lacks h =
      let (str', out, e, (t, nil, last), r) =
        cg_string_replace-Ends mem ok (Unescaping s) str unescape_table unescape_table-IsProper
          (unescape-IsInvariant s) (s, h, refl) in
      let whole : out ≡ s =
        sym (append-nil out) ∙ ap (λ x. out ++ x) (sym (escaped-eq_nil t (sym nil))) ∙ last in
      (
        str',
        e,
        Replaced-text str out str'
              (λ none. h ∙ ap escaped (sym whole ∙ none) ∙ (unfold escaped in refl))
              (r (subst (Lacks 0) (sym whole) lacks))
            ∙ whole,
      )

  -- Where allocations succeed, escaping a text without a byte 0 ends and unescaping the result
  -- ends with the text itself, whatever other bytes it holds, references included.
  pub cg_xml_unescapechars-cg_xml_escapechars :
      (str : CgString)
      → Lacks 0 (text str)
      → (str' str'' : CgString) × (cg_xml_escapechars mem str ≡ some (str', str'.value))
        × (cg_xml_unescapechars mem str' ≡ some (str'', str''.value))
        × (text str'' ≡ text str)
  cg_xml_unescapechars-cg_xml_escapechars str lacks =
      let (str', e, h) = cg_xml_escapechars-escaped str lacks in
      let (str'', e', h') = cg_xml_unescapechars-escaped str' (text str) lacks h in
      (str', str'', e, e', h')
