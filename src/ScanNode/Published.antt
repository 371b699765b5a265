-- ===== src/ScanNode/Published.antt =====
-- What `main` of oradar_ros/src/oradar_scan_node.cpp publishes, and how it leaves the driver.
use cqut_lgv.Common.{All}
use cqut_lgv.Floats.{Floats}
use cqut_lgv.Driver.Device.{ChannelDevice}
use cqut_lgv.ScanNode.{LaserScan}
use cqut_lgv.ScanNode.Limited.{Filled, IsLimited}
use cqut_lgv.ScanNode.Node.{NodeParams}

module _ {W F D : Type 0} ⦃fl : Floats F D⦄ (dev : ChannelDevice W) (params : NodeParams D) where
  -- Every range of the message is zero or inside the limits of the parameters.
  abbrev pub IsWithin : LaserScan F D → Type 0
  IsWithin msg = All (Filled (IsLimited params.limits)) msg.ranges
