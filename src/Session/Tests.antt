-- ===== src/Session/Tests.antt =====
-- A session that opens everything as number 9 and announces files of three bytes.
use ssh2_rs.Base.{
  All, ◌≢◌, ℕ, suc, ◌+◌, ◌≡◌, refl, ltb, none, some, [], ◌∷◌, ◌++◌, map, length, arith,
}
use ssh2_rs.Base.Int.{ℤ, pos}
use ssh2_rs.Base.Text.{has_nul}
use ssh2_rs.Errors.{ok, panic, c_string}
use ssh2_rs.Paths.{path2bytes}
use ssh2_rs.Channel.Tests.{endless, endless-ReadsWithin, idle_session, reads}
use ssh2_rs.Channel.Limit.{read_each, handed}
use ssh2_rs.Channel.{ChannelInner, from_raw_opt}
use ssh2_rs.Session.Raw.{Api, ScpStat}
use ssh2_rs.Session.Open.{scp_recv, ScpFileStat, size, limited, agent, userauth_agent}
use ssh2_rs.Session.AgentLaws.{userauth_agent-first}
use ssh2_rs.Errors.Session.{rc, last_error_raw}
use ssh2_rs.Agent.{connect, list_identities}
use ssh2_rs.Agent.Tests.{one_key, items, root, public_key}
use ssh2_rs.Agent.Laws.{Offers}
use ssh2_rs.Session.Prompt.{Env, Response, prompt, to_response, to_prompt}
use ssh2_rs.Session.PromptLaws.{prompt-answered}
use ssh2_rs.Session.Keyboard.{KeyboardApi, returns, asks, userauth_keyboard_interactive}
use ssh2_rs.Session.KeyboardLaws.{Talks, keyboard_interactive-Talks}
use ssh2_rs.Session.Laws.{scp_recv-limit}

abbrev three_bytes : ScpStat
three_bytes = record { st_size = pos 3; st_mode = 33188 }

abbrev pub opening : Api ℤ
opening = record {
  session = idle_session;
  banner_set = λ b s. (pos 0, s);
  banner_get = λ s. none;
  flag = λ f v s. (pos 0, s);
  set_timeout = λ t s. s;
  get_timeout = λ s. pos 0;
  handshake = λ fd s. (pos 0, s);
  userauth_password_ex = λ u p s. (pos 0, s);
  userauth_list = λ u n s. (none, s);
  method_pref = λ m p s. (pos 0, s);
  methods = λ m s. none;
  supported_algs = λ m s. ((pos 0, []), s);
  free_list = λ s. s;
  hostkey = λ s. (none, pos 0);
  hostkey_hash = λ h s. none;
  keepalive_config = λ w i s. s;
  keepalive_send = λ s. ((pos 0, pos 5), s);
  disconnect_ex = λ r d l s. (pos 0, s);
  block_directions = λ s. pos 0;
  agent_init = λ s. (some 9, s);
  knownhost_init = λ s. (some 9, s);
  sftp_init = λ s. (some 9, s);
  channel_open_ex = λ t w p m s. (some 9, s);
  channel_direct_tcpip_ex = λ h p sh sp s. (some 9, s);
  channel_forward_listen_ex = λ h p q s. ((some 9, pos 22), s);
  behind = λ b s. [];
  channel_forward_accept = λ l s. (some 9, s);
  channel_forward_cancel = λ l s. (pos 0, s);
  scp_recv2 = λ p s. ((some 9, three_bytes), s);
  scp_send64 = λ p m n t u s. (some 9, s);
}

abbrev received : ChannelInner
received = record { unsafe_raw = 9; read_limit = some 3 }

abbrev announced : ScpFileStat
announced = record { stat = three_bytes }

scp_recv-limit_example :
    let (rs, w) = read_each endless reads (record { inner = received; lib = pos 0 }) in
    All (λ r. r ≢ panic) rs
    × ((left : ℕ) × (w.inner.read_limit ≡ some left) × (length (handed rs) + left ≡ 3))
    × (size announced ≡ 3)
unfolding scp_recv path2bytes c_string limited from_raw_opt
scp_recv-limit_example =
    scp_recv-limit opening endless endless-ReadsWithin (97 ∷ []) received announced (pos 0) (pos 0)
      (pos 0) 3 reads refl refl (omega arith) (omega arith)

-- A user who answers every prompt with the prompt's own text, and once more; memory for short
-- answers only. The number counts the calls.
abbrev echoing : Env ℕ
echoing = record {
  from_utf8_lossy = λ b. b;
  malloc = λ n. ltb n 10;
  prompt =
      λ n user instruction prompts. (some (map (λ p. p.text) prompts ++ ((1 ∷ []) ∷ [])), suc n);
}

abbrev untouched : Response
untouched = record { text = none; length = 0 }

prompt-answered_example :
    prompt echoing 0 [] [] (record { text = 97 ∷ []; echo = pos 0 } ∷ []) (untouched ∷ [])
    ≡ (record { text = some (97 ∷ 0 ∷ []); length = 1 } ∷ [], 1)
unfolding to_response to_prompt
prompt-answered_example =
    prompt-answered echoing 0 [] [] (record { text = 97 ∷ []; echo = pos 0 } ∷ []) (untouched ∷ [])
      refl

-- libssh2 makes one request, and takes any answers for good; the pointer is the whole state.
abbrev accepting : KeyboardApi ℕ
accepting = record {
  session = record {
    last_error = λ s. (pos 0, none);
    get_blocking = λ s. pos 0;
    set_blocking = λ b s. s;
  };
  get = λ s. s;
  set = λ v s. v;
  userauth_keyboard_interactive_ex = λ username s.
      asks s username [] (record { text = 97 ∷ []; echo = pos 0 } ∷ []) (untouched ∷ [])
        λ rs. returns (pos 0) s;
}

keyboard_interactive-Talks_example :
    (last : ℕ) × (n : ℤ) × (t : ℕ) × Talks echoing last n t 0
      (accepting.userauth_keyboard_interactive_ex [] 7)
    × (let (o, s') = userauth_keyboard_interactive accepting echoing [] 7 0 3 in
        (o ≡ some ((rc accepting.session n t).0, last)) × (s' ≡ 3))
keyboard_interactive-Talks_example =
    keyboard_interactive-Talks accepting echoing [] 7 0 3 (λ v t. refl) (refl, refl, λ rs. tt)

one_key-Offers_nine : Offers one_key 9 (pos 0) items
unfolding ssh2_rs.Agent.from_raw
one_key-Offers_nine = (refl, refl, (refl, refl))

userauth_agent-first_example : userauth_agent opening one_key 2 root (pos 0) ≡ some (ok tt, pos 1)
unfolding agent connect list_identities rc has_nul ssh2_rs.Agent.from_raw_opt ssh2_rs.Agent.drop
    last_error_raw
userauth_agent-first_example =
    userauth_agent-first opening one_key (pos 0) (pos 0) (pos 0) (pos 0) 9 root 4 public_key [] 2
      refl refl refl one_key-Offers_nine (omega arith) refl
