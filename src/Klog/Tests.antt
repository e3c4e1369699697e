-- ===== src/Klog/Tests.antt =====
-- Runs of the log, and instances of its theorems.
use termob_kernel.Base.{◌≡◌, refl, [], ◌∷◌, ◌++◌, arith, ◌==◌, if◌then◌else◌}
use termob_kernel.Base.Lists.{keep_last}
use termob_kernel.Klog.{Klog, append_char, init, write, writeline}
use termob_kernel.Klog.Contents.{contents, IsValid, write_lem, writeline_lem}

-- "ab" behind whatever the buffer held
abbrev started : Klog
started = record { buffer = λ i. if i == 0 then b'a' else if i == 1 then b'b' else 0; length = 2 }

started-IsValid : IsValid started
started-IsValid = omega arith

writeline-init : contents (writeline (init started) (7 ∷ 8 ∷ [])) ≡ 7 ∷ 8 ∷ 10 ∷ []
unfolding writeline write init append_char
writeline-init = refl

write_lem_example :
    IsValid (write started (7 ∷ []))
    × (contents (write started (7 ∷ [])) ≡ keep_last 4095 (contents started ++ (7 ∷ [])))
write_lem_example = write_lem started (7 ∷ []) started-IsValid

writeline_lem_example :
    IsValid (writeline started (7 ∷ []))
    × (contents (writeline started (7 ∷ []))
        ≡ keep_last 4095 (contents started ++ ((7 ∷ []) ++ (10 ∷ []))))
writeline_lem_example = writeline_lem started (7 ∷ []) started-IsValid
