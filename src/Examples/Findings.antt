-- ===== src/Examples/Findings.antt =====
-- An encoding of findings that can be decoded and is never empty: their number stands before them.
use cloudeagent.Prelude.{
  ℕ, zero, suc, ◌≡◌, refl, ap, false, List, [], ◌∷◌, Text, length, leb, arith,
}
use cloudeagent.Types.{Finding}
use cloudeagent.Examples.Encoding.{field, read_field, read_field-field}

finding_of : ℕ → Text → Text → Text → Finding
finding_of line file level message = record {
  file = file;
  line = line;
  level = level;
  message = message;
}

body : List Finding → Text
body [] = []
body (f ∷ fs) = f.line ∷ field f.file (field f.level (field f.message (body fs)))

read_body : ℕ → Text → List Finding
unfolding finding_of
read_body zero s = []
read_body (suc n) [] = []
read_body (suc n) (line ∷ s) =
    let (file, s1) = read_field s in
    let (level, s2) = read_field s1 in
    let (message, s3) = read_field s2 in finding_of line file level message ∷ read_body n s3

pub encode_findings : List Finding → Text
unfolding body
encode_findings fs = length fs ∷ body fs

pub decode_findings : Text → List Finding
unfolding read_body
decode_findings [] = []
decode_findings (n ∷ s) = read_body n s

read_body-body : (fs : List Finding) → read_body (length fs) (body fs) ≡ fs
unfolding read_body body finding_of
read_body-body [] = refl
read_body-body (f ∷ fs) =
    rw (read_field-field, read_field-field, read_field-field) (ap (λ x. f ∷ x) (read_body-body fs))

pub decode-encode_findings : (fs : List Finding) → decode_findings (encode_findings fs) ≡ fs
unfolding decode_findings encode_findings
decode-encode_findings fs = read_body-body fs

pub encode_findings-full : (fs : List Finding) → leb (length (encode_findings fs)) 0 ≡ false
unfolding encode_findings
encode_findings-full fs = ground arith
