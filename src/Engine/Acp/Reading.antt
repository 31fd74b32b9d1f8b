-- ===== src/Engine/Acp/Reading.antt =====
-- `readLoop` of cloud-backend/pkg/agentengine/qwenpaw/acp.go: the output of the process, line by
-- line, until it ends or the scanner stops; between two lines other goroutines may act, which is
-- left out here. `strings.TrimSpace` and the decoding of JSON are parameters; `wrote` says whether
-- the pipe takes the answers to requests for a permission.
use cloudeagent.Prelude.{
  ℕ, ◌≤◌, ◌≡◌, ap, Bool, Option, none, some, List, [], ◌∷◌, ◌++◌, Text, All, length, leb,
  if◌then◌else◌,
}
use cloudeagent.Scanner.{scan_lines}
use cloudeagent.Scanner.Cut.{IsInner, scan_lines-long}
use cloudeagent.Engine.Acp.{Acp, Printing, RpcMessage}
use cloudeagent.Engine.Acp.Permission.{PermissionRequest, dispatch}

-- `16*1024*1024`
abbrev pub max_line : ℕ
max_line = 16777216

module _ (trim_space : Text → Text) (decode : Text → Option RpcMessage) where
  -- The messages among the lines; a blank line and one that does not decode are passed over.
  pub messages : List Text → List RpcMessage
  messages [] = []
  messages (line ∷ lines) =
      let rest = messages lines in
      let text = trim_space line in
      if leb (length text) 0 then rest else elim (decode text) [ none ↦ rest | some m ↦ m ∷ rest ]

  module _ (sprint : Printing) (policy : Option (PermissionRequest → Text))
      (observed wrote : Bool) where
    pub dispatch_all : List RpcMessage → Acp → Acp
    dispatch_all [] a = a
    dispatch_all (m ∷ ms) a = dispatch_all ms (dispatch sprint policy observed wrote m a).1

    pub read_loop : Text → Acp → Acp
    unfolding messages dispatch_all
    read_loop output a = dispatch_all (messages (scan_lines max_line output)) a

    -- Once the process writes a line of 16 MiB or more, nothing that it writes after it, no answer
    -- to any request, changes the client: what was read before such a line is all.
    pub read_loop_deaf :
        (before line after : Text) (a : Acp)
        → All IsInner line
        → max_line ≤ length line
        → read_loop (before ++ 10 ∷ (line ++ 10 ∷ after)) a ≡ read_loop (before ++ 10 ∷ []) a
    unfolding read_loop
    read_loop_deaf before line after a inner long =
        ap (λ l. dispatch_all (messages l) a)
          (scan_lines-long max_line before line after inner long)
