-- ===== src/Pty/Distinct.antt =====
-- The numbers of the terminal modes of src/lib.rs.
use ssh2_rs.Base.{
  ℕ, ◌≤◌, ◌<◌, ◌≡◌, refl, sym, ap, ◌∙◌, ◌≢◌, arith, ◌==◌, if◌then◌else◌, List, [], ◌∷◌,
}
use ssh2_rs.Pty.Opcodes
use ssh2_rs.Pty.Opcodes.{PtyModeOpcode, discriminant}

abbrev modes : List PtyModeOpcode
modes =
    Opcodes.tty_op_end ∷ Opcodes.vintr ∷ Opcodes.vquit ∷ Opcodes.verase ∷ Opcodes.vkill
    ∷ Opcodes.veof ∷ Opcodes.veol ∷ Opcodes.veol2 ∷ Opcodes.vstart ∷ Opcodes.vstop ∷ Opcodes.vsusp
    ∷ Opcodes.vdsusp ∷ Opcodes.vreprint ∷ Opcodes.vwerase ∷ Opcodes.vlnext ∷ Opcodes.vflush
    ∷ Opcodes.vswtch ∷ Opcodes.vstatus ∷ Opcodes.vdiscard ∷ Opcodes.ignpar ∷ Opcodes.parmrk
    ∷ Opcodes.inpck ∷ Opcodes.istrip ∷ Opcodes.inlcr ∷ Opcodes.igncr ∷ Opcodes.icrnl ∷ Opcodes.iuclc
    ∷ Opcodes.ixon ∷ Opcodes.ixany ∷ Opcodes.ixoff ∷ Opcodes.imaxbel ∷ Opcodes.isig ∷ Opcodes.icanon
    ∷ Opcodes.xcase ∷ Opcodes.echo ∷ Opcodes.echoe ∷ Opcodes.echok ∷ Opcodes.echonl ∷ Opcodes.noflsh
    ∷ Opcodes.tostop ∷ Opcodes.iexten ∷ Opcodes.echoctl ∷ Opcodes.echoke ∷ Opcodes.pendin
    ∷ Opcodes.opost ∷ Opcodes.olcuc ∷ Opcodes.onlcr ∷ Opcodes.ocrnl ∷ Opcodes.onocr ∷ Opcodes.onlret
    ∷ Opcodes.cs7 ∷ Opcodes.cs8 ∷ Opcodes.parenb ∷ Opcodes.parodd ∷ Opcodes.tty_op_ispeed
    ∷ Opcodes.tty_op_ospeed ∷ []

find_mode : ℕ → List PtyModeOpcode → PtyModeOpcode
unfolding discriminant
find_mode n [] = Opcodes.tty_op_end
find_mode n (m ∷ ms) = if discriminant m == n then m else find_mode n ms

-- The mode of a number.
named : ℕ → PtyModeOpcode
unfolding find_mode
named n = find_mode n modes

named-discriminant : (m : PtyModeOpcode) → named (discriminant m) ≡ m
unfolding named discriminant
named-discriminant Opcodes.tty_op_end = refl
named-discriminant Opcodes.vintr = refl
named-discriminant Opcodes.vquit = refl
named-discriminant Opcodes.verase = refl
named-discriminant Opcodes.vkill = refl
named-discriminant Opcodes.veof = refl
named-discriminant Opcodes.veol = refl
named-discriminant Opcodes.veol2 = refl
named-discriminant Opcodes.vstart = refl
named-discriminant Opcodes.vstop = refl
named-discriminant Opcodes.vsusp = refl
named-discriminant Opcodes.vdsusp = refl
named-discriminant Opcodes.vreprint = refl
named-discriminant Opcodes.vwerase = refl
named-discriminant Opcodes.vlnext = refl
named-discriminant Opcodes.vflush = refl
named-discriminant Opcodes.vswtch = refl
named-discriminant Opcodes.vstatus = refl
named-discriminant Opcodes.vdiscard = refl
named-discriminant Opcodes.ignpar = refl
named-discriminant Opcodes.parmrk = refl
named-discriminant Opcodes.inpck = refl
named-discriminant Opcodes.istrip = refl
named-discriminant Opcodes.inlcr = refl
named-discriminant Opcodes.igncr = refl
named-discriminant Opcodes.icrnl = refl
named-discriminant Opcodes.iuclc = refl
named-discriminant Opcodes.ixon = refl
named-discriminant Opcodes.ixany = refl
named-discriminant Opcodes.ixoff = refl
named-discriminant Opcodes.imaxbel = refl
named-discriminant Opcodes.isig = refl
named-discriminant Opcodes.icanon = refl
named-discriminant Opcodes.xcase = refl
named-discriminant Opcodes.echo = refl
named-discriminant Opcodes.echoe = refl
named-discriminant Opcodes.echok = refl
named-discriminant Opcodes.echonl = refl
named-discriminant Opcodes.noflsh = refl
named-discriminant Opcodes.tostop = refl
named-discriminant Opcodes.iexten = refl
named-discriminant Opcodes.echoctl = refl
named-discriminant Opcodes.echoke = refl
named-discriminant Opcodes.pendin = refl
named-discriminant Opcodes.opost = refl
named-discriminant Opcodes.olcuc = refl
named-discriminant Opcodes.onlcr = refl
named-discriminant Opcodes.ocrnl = refl
named-discriminant Opcodes.onocr = refl
named-discriminant Opcodes.onlret = refl
named-discriminant Opcodes.cs7 = refl
named-discriminant Opcodes.cs8 = refl
named-discriminant Opcodes.parenb = refl
named-discriminant Opcodes.parodd = refl
named-discriminant Opcodes.tty_op_ispeed = refl
named-discriminant Opcodes.tty_op_ospeed = refl

discriminant_range :
    (m : PtyModeOpcode) → m ≢ Opcodes.tty_op_end → (1 ≤ discriminant m) × (discriminant m < 160)
unfolding discriminant
discriminant_range Opcodes.tty_op_end h = absurd (h refl)
discriminant_range _ h = (omega arith, omega arith)

-- Two modes with one number are one mode, and every mode but TTY_OP_END has a number from 1 to 159.
discriminant_lem :
    (m : PtyModeOpcode)
    → ((k : PtyModeOpcode) → discriminant m ≡ discriminant k → m ≡ k)
      × (m ≢ Opcodes.tty_op_end → (1 ≤ discriminant m) × (discriminant m < 160))
discriminant_lem m =
    (λ k e. sym (named-discriminant m) ∙ ap named e ∙ named-discriminant k, discriminant_range m)
