-- ===== src/Driver/Race/Lost.antt =====
-- A circle that `GrabFullScan` of oradar_ros/sdk/src/ord_lidar_driver.cpp never hands out.
use cqut_lgv.Floats.{Floats}
use cqut_lgv.Driver.{Driver}
