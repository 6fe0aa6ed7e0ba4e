-- ===== src/Conf/Location.antt =====
-- `ngx_http_rn_label` and `ngx_http_rn_report`, the other two directives of a location.
use rl_nginx.Base.{
  true, false, not, ◌&&◌, [], Bytes, codes, ltb, ◌==◌, if◌then◌else◌, same_bytes, is_some, length,
  Result, ok, err, guard,
}
use rl_nginx.Base.Results.{◌>>◌}
use rl_nginx.Conf.{
  MainConf, LocConf, Ngx, DirectiveError, conf_error, is_duplicate, unknown_tracker, max_label_len,
  find_tracker,
}

unfoldable pub label : Ngx → LocConf → Bytes → Result DirectiveError LocConf
label ngx lcf value = do
  guard conf_error (not (ngx.variables_count value == 0 && ltb max_label_len (length value)))
  guard conf_error (ngx.compiles value)
  ok (record lcf { label = value; label_set = true })

unfoldable pub report : MainConf → LocConf → Bytes → Result DirectiveError (MainConf × LocConf)
report mcf lcf value =
    if lcf.report_set
    then err is_duplicate
    else if same_bytes value (codes "off")
    then ok
        (mcf, record lcf { report_set = true; report_enabled = false; report_tracker_name = [] })
    else if is_some (find_tracker mcf value)
    then ok (
      record mcf { enabled = true },
      record lcf { report_set = true; report_enabled = true; report_tracker_name = value },
    )
    else err unknown_tracker
