-- ===== src/Pty/Opcodes.antt =====
-- src/lib.rs, `PtyModeOpcode` and `ExtensiblePtyModeOpcode`: the terminal modes and their numbers.
use ssh2_rs.Base.{ℕ}

pub data PtyModeOpcode : Type 0 where
  tty_op_end vintr vquit verase vkill veof veol veol2 vstart vstop vsusp vdsusp vreprint vwerase
        vlnext vflush vswtch vstatus vdiscard ignpar parmrk inpck istrip inlcr igncr icrnl iuclc
        ixon ixany ixoff imaxbel isig icanon xcase echo echoe echok echonl noflsh tostop iexten
        echoctl echoke pendin opost olcuc onlcr ocrnl onocr onlret cs7 cs8 parenb parodd
        tty_op_ispeed tty_op_ospeed :
      PtyModeOpcode

-- The discriminant, `m as u8`.
unfoldable pub discriminant : PtyModeOpcode → ℕ
discriminant tty_op_end = 0
discriminant vintr = 1
discriminant vquit = 2
discriminant verase = 3
discriminant vkill = 4
discriminant veof = 5
discriminant veol = 6
discriminant veol2 = 7
discriminant vstart = 8
discriminant vstop = 9
discriminant vsusp = 10
discriminant vdsusp = 11
discriminant vreprint = 12
discriminant vwerase = 13
discriminant vlnext = 14
discriminant vflush = 15
discriminant vswtch = 16
discriminant vstatus = 17
discriminant vdiscard = 18
discriminant ignpar = 30
discriminant parmrk = 31
discriminant inpck = 32
discriminant istrip = 33
discriminant inlcr = 34
discriminant igncr = 35
discriminant icrnl = 36
discriminant iuclc = 37
discriminant ixon = 38
discriminant ixany = 39
discriminant ixoff = 49
discriminant imaxbel = 41
discriminant isig = 50
discriminant icanon = 51
discriminant xcase = 52
discriminant echo = 53
discriminant echoe = 54
discriminant echok = 55
discriminant echonl = 56
discriminant noflsh = 57
discriminant tostop = 58
discriminant iexten = 59
discriminant echoctl = 60
discriminant echoke = 61
discriminant pendin = 62
discriminant opost = 70
discriminant olcuc = 71
discriminant onlcr = 72
discriminant ocrnl = 73
discriminant onocr = 74
discriminant onlret = 75
discriminant cs7 = 90
discriminant cs8 = 91
discriminant parenb = 92
discriminant parodd = 93
discriminant tty_op_ispeed = 128
discriminant tty_op_ospeed = 129

pub data ExtensiblePtyModeOpcode : Type 0 where
  mode : PtyModeOpcode → ExtensiblePtyModeOpcode
  extended : ℕ → ExtensiblePtyModeOpcode

-- `From<PtyModeOpcode>` and `From<u8>` are the constructors.
unfoldable pub as_opcode : ExtensiblePtyModeOpcode → ℕ
unfolding discriminant
as_opcode (mode m) = discriminant m
as_opcode (extended op) = op
