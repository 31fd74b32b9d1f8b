-- ===== src/Reviews/Scanning/Found.antt =====
-- What the scan of a directory reports, as a relation on the tree.
use mathlib.Core.List.{Memᴰ}
use mathlib.Core.List.Memᴰ
use cloudeagent.Prelude.{
  ℕ, zero, suc, ◌+◌, ◌≤◌, ◌≡◌, refl, sym, subst, ◌↔◌, inl, inr, Bool, true, false, Option, none,
  some, List, [], ◌∷◌, ◌++◌, Text, arith, get_elem?, ltb, Bool-cases, Option-cases, if◌then◌else◌,
}
use cloudeagent.Types.{Finding}
use cloudeagent.Reviews.Pattern.{find_submatch}
use cloudeagent.Scanner.{scan_lines}
use cloudeagent.Reviews.Scanning.{
  Node, file, dir, unreadable, Nodes, nil, cons, name_of, is_skipped, max_line, max_size, relative,
  is_text_file, line_finding, find_lines, scan_file, scan_node, scan_nodes, scan_repo,
}

pub data Child (c : Node) : Nodes → Type 0 where
  first : {nodes : Nodes} → Child c (cons c nodes)
  later : {n : Node} {nodes : Nodes} → Child c nodes → Child c (cons n nodes)

module _ (trim_space : Text → Text) where
  -- The finding is that of the line `suc n` of the list.
  pub data Tagged (path : Text) (k : ℕ) (lines : List Text) (f : Finding) : Type 0 where
    tagged :
        (n : ℕ) (line : Text) (m : Text × Text)
        → get_elem? lines n ≡ some line
        → find_submatch line ≡ some m
        → f ≡ line_finding trim_space path (suc (k + n)) m
        → Tagged path k lines f

  -- A tagged line of a text file that is not too large, below no directory that is skipped.
  pub data Reported (f : Finding) : List Text → Node → Type 0 where
    in_file :
        {path : List Text} {name : Text} {size : ℕ} {content : Text}
        → size ≤ max_size
        → is_text_file content ≡ true
        → Tagged (relative path) 0 (scan_lines max_line content) f
        → Reported f path (file name size (some content))
    in_dir :
        {path : List Text} {name : Text} {children : Nodes} {child : Node}
        → is_skipped name ≡ false
        → Child child children
        → Reported f (path ++ name_of child ∷ []) child
        → Reported f path (dir name children)

  module _ (path : Text) (k : ℕ) (line : Text) (lines : List Text) where
    pub find_lines_untagged :
        find_submatch line ≡ none
        → find_lines trim_space path k (line ∷ lines) ≡ find_lines trim_space path (suc k) lines
    unfolding find_lines
    find_lines_untagged e = rw (find_lines, e) refl

    pub find_lines_tagged :
        (m : Text × Text)
        → find_submatch line ≡ some m
        → find_lines trim_space path k (line ∷ lines)
          ≡ line_finding trim_space path (suc k) m ∷ find_lines trim_space path (suc k) lines
    unfolding find_lines
    find_lines_tagged m e = rw (find_lines, e) refl

  module _ (f : Finding) (path : Text) where
    Tagged-later :
        (k : ℕ) (line : Text) (lines : List Text)
        → Tagged path (suc k) lines f
        → Tagged path k (line ∷ lines) f
    Tagged-later k line lines (tagged n l m at found same) =
        tagged (suc n) l m at found
          (subst (λ i. f ≡ line_finding trim_space path i m) (omega arith) same)

    find_lines_sound :
        (k : ℕ) (lines : List Text)
        → Memᴰ f (find_lines trim_space path k lines)
        → Tagged path k lines f
    unfolding find_lines
    find_lines_sound k [] mem = absurd (Memᴰ.not-nil mem)
    find_lines_sound k (line ∷ lines) mem =
        let below : Memᴰ f (find_lines trim_space path (suc k) lines)
            → Tagged path k (line ∷ lines) f =
          λ h. Tagged-later k line lines (find_lines_sound (suc k) lines h) in
        elim (Option-cases (find_submatch line)) [
          | inl e ↦ below (subst (Memᴰ f) (find_lines_untagged path k line lines e) mem)
          | inr (m, e) ↦
              elim (Memᴰ.cases_cons
                (subst (Memᴰ f) (find_lines_tagged path k line lines m e) mem)) [
                  | inl same ↦
                      tagged 0 line m refl e
                        (subst (λ i. f ≡ line_finding trim_space path i m) (omega arith) same)
                  | inr h ↦ below h
                ]
        ]

    find_lines_later :
        (k : ℕ) (line : Text) (lines : List Text)
        → Memᴰ f (find_lines trim_space path (suc k) lines)
        → Memᴰ f (find_lines trim_space path k (line ∷ lines))
    find_lines_later k line lines mem = elim (Option-cases (find_submatch line)) [
      | inl e ↦ subst (Memᴰ f) (sym (find_lines_untagged path k line lines e)) mem
      | inr (m, e) ↦ subst (Memᴰ f) (sym (find_lines_tagged path k line lines m e)) (Memᴰ.tail mem)
    ]

    find_lines_complete :
        (k : ℕ) (lines : List Text) (n : ℕ) (l : Text) (m : Text × Text)
        → get_elem? lines n ≡ some l
        → find_submatch l ≡ some m
        → f ≡ line_finding trim_space path (suc (k + n)) m
        → Memᴰ f (find_lines trim_space path k lines)
    find_lines_complete k [] n l m at found same = cc
    find_lines_complete k (line ∷ lines) zero l m at found same =
        let e : find_submatch line ≡ some m = cc in
        subst (Memᴰ f) (sym (find_lines_tagged path k line lines m e))
          (Memᴰ.head (subst (λ i. f ≡ line_finding trim_space path i m) (omega arith) same))
    find_lines_complete k (line ∷ lines) (suc n) l m at found same = find_lines_later k line lines (
        find_lines_complete (suc k) lines n l m at found
          (subst (λ i. f ≡ line_finding trim_space path i m) (omega arith) same))

  module _ (f : Finding) where
    scan_file_sound :
        (path : List Text) (name : Text) (size : ℕ) (content : Option Text)
        → Memᴰ f (scan_file trim_space path size content)
        → Reported f path (file name size content)
    unfolding scan_file
    scan_file_sound path name size none mem = absurd (Memᴰ.not-nil mem)
    scan_file_sound path name size (some content) mem =
        let report = λ (b : Bool). λ (t : Bool).
          if b
          then []
          else if t
          then find_lines trim_space (relative path) 0 (scan_lines max_line content)
          else [] in
        elim (Bool-cases (ltb max_size size)) [
          | inl e ↦
              absurd (Memᴰ.not-nil (subst (λ b. Memᴰ f (report b (is_text_file content))) e mem))
          | inr e ↦
              let mem1 = subst (λ b. Memᴰ f (report b (is_text_file content))) e mem in
              elim (Bool-cases (is_text_file content)) [
                | inl t ↦ in_file (ground arith) t (
                    find_lines_sound f (relative path) 0 (scan_lines max_line content)
                      (subst (λ b. Memᴰ f (report false b)) t mem1))
                | inr t ↦ absurd (Memᴰ.not-nil (subst (λ b. Memᴰ f (report false b)) t mem1))
              ]
        ]

    mutual
      unfolding scan_node

      scan_node_sound :
          (path : List Text) (node : Node)
          → Memᴰ f (scan_node trim_space path node)
          → Reported f path node
      scan_node_sound path (file name size content) mem = scan_file_sound path name size content mem
      scan_node_sound path (dir name children) mem =
          let report = λ (b : Bool). if b then [] else scan_nodes trim_space path children in
          elim (Bool-cases (is_skipped name)) [
            | inl e ↦ absurd (Memᴰ.not-nil (subst (λ b. Memᴰ f (report b)) e mem))
            | inr e ↦
                let r = scan_nodes_sound path children (subst (λ b. Memᴰ f (report b)) e mem) in
                in_dir e r.1 r.2
          ]
      scan_node_sound path (unreadable name) mem = absurd (Memᴰ.not-nil mem)

      scan_nodes_sound :
          (path : List Text) (nodes : Nodes)
          → Memᴰ f (scan_nodes trim_space path nodes)
          → (child : Node) × Child child nodes × Reported f (path ++ name_of child ∷ []) child
      scan_nodes_sound path nil mem = absurd (Memᴰ.not-nil mem)
      scan_nodes_sound path (cons node nodes) mem =
          elim (Memᴰ.append_cases (scan_node trim_space (path ++ name_of node ∷ []) node) mem) [
            | inl h ↦ (node, first, scan_node_sound (path ++ name_of node ∷ []) node h)
            | inr h ↦ let r = scan_nodes_sound path nodes h in (r.0, later r.1, r.2)
          ]

    scan_nodes_child :
        (path : List Text) (child : Node) (nodes : Nodes)
        → Child child nodes
        → Memᴰ f (scan_node trim_space (path ++ name_of child ∷ []) child)
        → Memᴰ f (scan_nodes trim_space path nodes)
    unfolding scan_node
    scan_nodes_child path child nil c mem = elim c [ ]
    scan_nodes_child path child (cons n nodes) first mem =
        Memᴰ.append_left (scan_nodes trim_space path nodes) mem
    scan_nodes_child path child (cons n nodes) (later c) mem =
        Memᴰ.append_right (scan_node trim_space (path ++ name_of n ∷ []) n)
          (scan_nodes_child path child nodes c mem)

    scan_node_complete :
        (path : List Text) (node : Node)
        → Reported f path node
        → Memᴰ f (scan_node trim_space path node)
    unfolding scan_node scan_file
    scan_node_complete path node
          (in_file {size = size} {content = content} small text (tagged n l m at found same)) =
        let fits : ltb max_size size ≡ false = ground arith in
        rw (fits, text)
          (find_lines_complete f (relative path) 0 (scan_lines max_line content) n l m at found
            same)
    scan_node_complete path node (in_dir {children = nodes} {child = c} kept child below) =
        rw kept (
          scan_nodes_child path c nodes child (scan_node_complete (path ++ name_of c ∷ []) c below))

  -- A scan of a directory reports a finding exactly if the tree has it: it stands at a line with a
  -- tag, with the path of the file below the root, the number of the line, from 1, and the text of
  -- the tag; the file is one of text of at most 1 MiB and no directory above it, the root included,
  -- has a name that is skipped.
  pub scan_repo-Reported :
      (root : Node) (f : Finding) → Memᴰ f (scan_repo trim_space root) ↔ Reported f [] root
  unfolding scan_repo
  scan_repo-Reported root f = (scan_node_sound f [] root, scan_node_complete f [] root)
