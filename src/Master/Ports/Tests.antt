-- ===== src/Master/Ports/Tests.antt =====
-- The ports of the master at concrete inputs.
use opdi_core.Base.{◌≡◌, ◌≢◌, refl, arith, [], codes, pos, negsuc}
use opdi_core.Master.{returned, threw, invalid_argument}
use opdi_core.Master.StringTools.{split}
use opdi_core.Master.Ports.{
  DigitalPort, unknown, bidirectional, digital_port, serialize, refresh, check_mode, has_pullup,
  has_pulldown, max_position,
}
use opdi_core.Master.Ports.Serial.{digital_port-serialize}

abbrev lamp : DigitalPort
lamp = record {
  id = codes "d1";
  name = codes "Lamp";
  dir_caps = bidirectional;
  flags = 1;
  mode = pos 3;
  line = pos 1;
}

no_pulldown : check_mode lamp (pos 2) ≡ threw invalid_argument
unfolding check_mode has_pullup has_pulldown
no_pulldown = refl

-- Without labels, the maximum of the position is that of a uint16_t.
no_labels :
    max_position (record {
      id = codes "s";
      name = codes "S";
      label_count = 0;
      flags = 0;
      position_labels = [];
      position = negsuc 0;
    })
    ≡ 65535
unfolding max_position
no_labels = refl

known : bidirectional ≢ unknown
known e = cc

digital_port-serialize_example : digital_port (split (serialize lamp) 58) ≡ returned (refresh lamp)
digital_port-serialize_example =
    digital_port-serialize lamp known (omega arith)
      ((λ e. absurd (omega arith)), (λ e. absurd (omega arith)))
      ((λ e. absurd (omega arith)), (λ e. absurd (omega arith)))
