-- ===== src/Session/Steps.antt =====
-- protocol/rtmp/src/session/server_session.rs: the steps of the handlers keep the session safe.
use xiu.Prelude.{ℕ, Bool, true, false, Option, none, some, List, ◌≡◌, Outcome, ok, err, ◌>>◌}
use xiu.Prelude.Words.{Bytes}
use xiu.Bytesio.Writer.{WriteError}
use xiu.Amf0.Value.{
  Amf0ValueType, Properties, number, boolean, utf8_string, object, null, ecma_array,
  long_utf8_string, end,
}
use xiu.Message.Control.{Send}
use xiu.Message.NetWriter.{Net, NetError}
use xiu.Session.Url.{first_part-IsUnsplit}
use xiu.Session.Define.{SessionError, ServerSessionState, auth_error}
use xiu.Session.Common.{Surroundings, Call}
use xiu.Session.Server.{
  ServerSession, with_control, with_net, with_common, fresh, new_writer, set_io,
}
use xiu.Session.Commands
use xiu.Session.Leaves.{Leaves, any-Leaves, test-Leaves, after-Leaves, zoom-Leaves}
use xiu.Session.Safety.{IsOwn, IsSafe, subscribe-Leaves, publish-Leaves, unpublish-Leaves}

module _ (auth : Option (Bytes → Option Bytes → Bool → Bool)) (id : ℕ) (around : Surroundings)
    (taken : List Bytes → Bool) where
  abbrev pub Safe : ServerSession around → Type 0
  Safe = IsSafe auth id {around = around}

  -- Safe, and the stream is admitted.
  abbrev pub Admitted : Bool → ServerSession around → Type 0
  Admitted is_pull s = Safe s × (Commands.admits auth s.stream_name s.query is_pull ≡ true)

  abbrev pub Step : Type 0
  Step = ServerSession around → Outcome (ServerSession around) SessionError (Unit {0})

  -- From every state where `P` holds.
  pub record Keeps (P Q : ServerSession around → Type 0) (m : Step) : Type 0 where
    pub run : (s : ServerSession around) → P s → Leaves Q Safe (m s)

  pub seq-Keeps :
      {P Q R : ServerSession around → Type 0} {m k : Step}
      → Keeps P Q m
      → Keeps Q R k
      → Keeps P R (m >> k)
  seq-Keeps {P} {Q} {R} {m} {k} h l = record {
    run = λ s p. after-Leaves Q Safe R (m s) (λ _. k) (h.run s p) (λ u. l.run);
  }

  -- The network changes nothing that the hub sees.
  pub control-Keeps :
      (P : ServerSession around → Type 0) (from : WriteError → SessionError) (write : Bool → Send)
      → ((s : ServerSession around) → P s → Safe s)
      → ((s : ServerSession around) (io : List Bytes) → P s → P (set_io around taken s io))
      → Keeps P P (with_control around taken from write)
  unfolding with_control
  control-Keeps P from write safe h = record {
    run = λ s p.
        zoom-Leaves (λ _. Unit) (λ _. Unit) P Safe (λ w. set_io around taken s w.sent) from
          (write (taken s.io) (fresh s.io)) (any-Leaves (write (taken s.io) (fresh s.io)))
          (λ w _. h s w.sent p) (λ w _. safe s p);
  }

  pub net-Keeps :
      (P : ServerSession around → Type 0) (from : NetError → SessionError) (write : Net (Unit {0}))
      → ((s : ServerSession around) → P s → Safe s)
      → ((s : ServerSession around) (io : List Bytes) → P s → P (set_io around taken s io))
      → Keeps P P (with_net around taken from write)
  unfolding with_net
  net-Keeps P from write safe h = record {
    run = λ s p.
        zoom-Leaves (λ _. Unit) (λ _. Unit) P Safe
          (λ n. set_io around taken s n.packetizer.writer.sent) from (write (new_writer s.io))
          (any-Leaves (write (new_writer s.io))) (λ n _. h s n.packetizer.writer.sent p)
          (λ n _. safe s p);
  }

  pub common-Keeps :
      (P : ServerSession around → Type 0) (call : ServerSession around → Call around)
      → ((s : ServerSession around) → P s → Safe s)
      → ((s : ServerSession around)
          → P s
          → Leaves (IsOwn auth id) (IsOwn auth id) (call s s.common))
      → Keeps P Safe (with_common around taken call)
  unfolding with_common
  common-Keeps P call safe h = record {
    run = λ s p.
        zoom-Leaves (IsOwn auth id) (IsOwn auth id) Safe Safe (λ c. record s { common = c })
          (λ e. e) (call s s.common) (h s p) (λ c own. (own, (safe s p).1))
          (λ c own. (own, (safe s p).1));
  }

  module _ (insert : Bytes → Amf0ValueType → Properties → Properties) (gop_num : ℕ) where
    pub app_name-Keeps :
        (v : Option Amf0ValueType)
        → Keeps Safe Safe (Commands.set_app_name around taken insert auth gop_num v)
    app_name-Keeps v = record { run = by_value v }
      where
        by_value :
            (v : Option Amf0ValueType) (s : ServerSession around)
            → Safe s
            → Leaves Safe Safe (Commands.set_app_name around taken insert auth gop_num v s)
        by_value (some (utf8_string app)) s safe =
            (safe.0, first_part-IsUnsplit Commands.is_url_sep app)
        by_value (some (number n)) s safe = safe
        by_value (some (boolean b)) s safe = safe
        by_value (some (object ps)) s safe = safe
        by_value (some null) s safe = safe
        by_value (some (ecma_array ps)) s safe = safe
        by_value (some (long_utf8_string b)) s safe = safe
        by_value (some end) s safe = safe
        by_value none s safe = safe

    module _ (P : ServerSession around → Type 0) (safe : (s : ServerSession around) → P s → Safe s)
        (h : (s : ServerSession around) (io : List Bytes)
          → P s
          → P (set_io around taken s io)) where
      pub window-Keeps : Keeps P P (Commands.offer_window around taken insert auth gop_num)
      window-Keeps = control-Keeps P _ _ safe h

      pub bandwidth-Keeps : Keeps P P (Commands.offer_bandwidth around taken insert auth gop_num)
      bandwidth-Keeps = control-Keeps P _ _ safe h

      pub answer-Keeps :
          (transaction_id encoding : ℕ)
          → Keeps P P
              (Commands.answer_connect around taken insert auth gop_num transaction_id encoding)
      answer-Keeps transaction_id encoding = net-Keeps P _ _ safe h

      pub begin-Keeps :
          (msg_stream_id : ℕ)
          → Keeps P P (Commands.begin_stream around taken insert auth gop_num msg_stream_id)
      begin-Keeps msg_stream_id = control-Keeps P _ _ safe h

      pub record-Keeps :
          (msg_stream_id : ℕ)
          → Keeps P P (Commands.record_stream around taken insert auth gop_num msg_stream_id)
      record-Keeps msg_stream_id = control-Keeps P _ _ safe h

      pub tell-Keeps :
          (transaction_id : ℕ) (code description : Bytes)
          → Keeps P P
              (Commands.tell around taken insert auth gop_num transaction_id code description)
      tell-Keeps transaction_id code description = net-Keeps P _ _ safe h

      pub tell_play-Keeps :
          (transaction_id : ℕ)
          → Keeps P P (Commands.tell_play around taken insert auth gop_num transaction_id)
      tell_play-Keeps transaction_id = net-Keeps P _ _ safe h

    pub note-Keeps :
        (command_obj : Properties)
        → Keeps Safe Safe (Commands.note_properties around taken insert auth gop_num command_obj)
    unfolding Commands.note_properties
    note-Keeps command_obj = record { run = λ s safe. safe }

    pub state-Keeps :
        (state : ServerSessionState)
        → Keeps Safe Safe (Commands.set_state around taken insert auth gop_num state)
    state-Keeps state = record { run = λ s safe. safe }

    pub session_type-Keeps :
        (n : ℕ) → Keeps Safe Safe (Commands.set_session_type around taken insert auth gop_num n)
    session_type-Keeps n = record { run = λ s safe. safe }

    pub stream_name-Keeps :
        (named : Bytes × Option Bytes)
        → Keeps Safe Safe (Commands.set_stream_name around taken insert auth gop_num named)
    stream_name-Keeps named = record { run = λ s safe. safe }

    pub authenticate-Keeps :
        (is_pull : Bool)
        → Keeps Safe
            (Admitted is_pull)
            (Commands.authenticate around taken insert auth gop_num is_pull)
    unfolding Commands.authenticate
    authenticate-Keeps is_pull = record {
      run = λ s safe.
          test-Leaves {E = SessionError} {A = Unit {0}} (Admitted is_pull) Safe
            (Commands.admits auth s.stream_name s.query is_pull) (ok tt s) (err auth_error s)
            (λ h. (safe, h)) safe;
    }

    pub request_url-Keeps :
        (is_pull : Bool) (raw : Bytes)
        → Keeps
            (Admitted is_pull)
            (Admitted is_pull)
            (Commands.set_request_url around taken insert auth gop_num raw)
    request_url-Keeps is_pull raw = record { run = λ s h. h }

    pub subscribe-Keeps :
        Keeps (Admitted true) Safe (Commands.subscribe around taken insert auth gop_num)
    subscribe-Keeps =
        common-Keeps (Admitted true) _ (λ s h. h.0)
          (λ s h.
            subscribe-Leaves auth id around s.app_name s.stream_name (h.0).1 s.common (h.0).0
              (s.query, h.1))

    pub publish-Keeps :
        Keeps (Admitted false) Safe (Commands.publish around taken insert auth gop_num)
    publish-Keeps =
        common-Keeps (Admitted false) _ (λ s h. h.0)
          (λ s h.
            publish-Leaves auth id around s.app_name s.stream_name (h.0).1 s.common (h.0).0 gop_num
              (s.query, h.1))

    pub unpublish-Keeps : Keeps Safe Safe (Commands.unpublish around taken insert auth gop_num)
    unpublish-Keeps =
        common-Keeps Safe _ (λ s h. h)
          (λ s h. unpublish-Leaves auth id around s.app_name s.stream_name h.1 s.common h.0)
