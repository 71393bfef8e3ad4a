-- ===== src/Rewrite/Answers.antt =====
-- What stands behind an answer of `rewrite`.
use token_terminator.Common.{String, ◌≡◌, strip, true, false, some, List, All, str_eq}
use token_terminator.Rewrite.{Code, Rewritten, Item, is_accepted}

-- What an answer under a key stands for: a command that is offered is the output, without the blanks around
-- it, of a process that was run for that key and ended with 0 or 3, and it is not empty. `Printed` says
-- which processes were run, for which key, and what they printed.
module _ (Printed : String → String → Code → Type 0) where
  pub data IsPrinted (key command : String) : Type 0 where
    printed :
        (stdout : String) (returncode : Code)
        → Printed key stdout returncode
        → command ≡ strip stdout
        → str_eq command "" ≡ false
        → is_accepted returncode ≡ true
        → IsPrinted key command

  abbrev pub IsWorthy : String → Rewritten → Type 0
  IsWorthy key r = (c : String) → r.command ≡ some c → IsPrinted key c

  abbrev pub AllWorthy : List Item → Type 0
  AllWorthy is = All (λ (i : Item). IsWorthy i.key i.result) is
